-- ===== src/Outbox/Stamps.antt =====
-- The rows that the relay (outbox-relay.ts) claims and stamps.
use mathlib.Core.List.{append_assoc}
use mathlib.Core.Path.{subst}
use order_to_cash_nestjs.Base.Rearranging.{Pairwise}
use order_to_cash_nestjs.Base.Text.{Text, ◌=t◌, text_eq_refl}
use order_to_cash_nestjs.Base.{
  Bool, List, ℕ, All, any, if◌then◌else◌, map, true, ◌++◌, ◌≡◌, ◌∷◌, drop, some, false, Bool-cases,
  [], suc, arith, ap, ◌∙◌, inl, filter, zero, refl, sym, inr, All-append,
}
use order_to_cash_nestjs.Outbox.{
  OutboxRow, stamp, rows_clash, PublishableFact, of_key, is_published, fact_of,
}

abbrev pub RowsApart : OutboxRow → OutboxRow → Type 0
RowsApart a b = rows_clash a b ≡ false

abbrev pub ArePublished : Bool → List OutboxRow → Type 0
ArePublished b rows = All (λ r. is_published r ≡ b) rows

abbrev pub facts_of : List OutboxRow → List PublishableFact
facts_of rows = map fact_of rows

pub of_key-append :
    (k : Text) (xs ys : List OutboxRow)
    → of_key k (facts_of (xs ++ ys)) ≡ of_key k (facts_of xs) ++ of_key k (facts_of ys)
of_key-append k [] ys = refl
of_key-append k (x ∷ xs) ys = elim (Bool-cases (x.correlation_id =t k)) [
  | inl e ↦ rw e (ap (λ (l : List PublishableFact). fact_of x ∷ l) (of_key-append k xs ys))
  | inr e ↦ rw e (of_key-append k xs ys)
]

pub filter-split :
    (p : OutboxRow → Bool) (xs ys : List OutboxRow)
    → All (λ r. p r ≡ true) xs
    → All (λ r. p r ≡ false) ys
    → filter p (xs ++ ys) ≡ xs
filter-split p [] [] h k = refl
filter-split p [] (y ∷ ys) h k = rw k.0 (filter-split p [] ys h k.1)
filter-split p (x ∷ xs) ys h k =
    rw h.0 (ap (λ (l : List OutboxRow). x ∷ l) (filter-split p xs ys h.1 k))

pub filter-rest :
    (p : OutboxRow → Bool) (xs ys : List OutboxRow)
    → All (λ r. p r ≡ false) xs
    → All (λ r. p r ≡ true) ys
    → filter p (xs ++ ys) ≡ ys
filter-rest p [] [] h k = refl
filter-rest p [] (y ∷ ys) h k =
    rw k.0 (ap (λ (l : List OutboxRow). y ∷ l) (filter-rest p [] ys h k.1))
filter-rest p (x ∷ xs) ys h k = rw h.0 (filter-rest p xs ys h.1 k)

pub All-right {κ} : (P : OutboxRow → Type κ) (xs ys : List OutboxRow) → All P (xs ++ ys) → All P ys
All-right P [] ys h = h
All-right P (x ∷ xs) ys h = All-right P xs ys h.1

pub Pairwise-right :
    (xs ys : List OutboxRow) → Pairwise RowsApart (xs ++ ys) → Pairwise RowsApart ys
Pairwise-right [] ys h = h
Pairwise-right (x ∷ xs) ys h = Pairwise-right xs ys h.1

pub All-taken {κ} :
    (P : OutboxRow → Type κ) (n : ℕ) (xs : List OutboxRow) → All P xs → All P (drop n xs)
All-taken P zero xs h = h
All-taken P (suc n) [] h = h
All-taken P (suc n) (x ∷ xs) h = All-taken P n xs h.1

abbrev pub is_claimed : List OutboxRow → OutboxRow → Bool
is_claimed claimed r = any (λ c. c.id =t r.id) claimed

abbrev pub stamp_one : ℕ → List OutboxRow → OutboxRow → OutboxRow
stamp_one now claimed r = if is_claimed claimed r then record r { published_at = some now } else r

unclaimed :
    (claimed rows : List OutboxRow)
    → Pairwise RowsApart (claimed ++ rows)
    → All (λ r. is_claimed claimed r ≡ false) rows
unclaimed [] rows h = all_false rows
  where
    all_false : (rows : List OutboxRow) → All (λ r. is_claimed [] r ≡ false) rows
    all_false [] = tt
    all_false (r ∷ rows) = (refl, all_false rows)
unclaimed (x ∷ claimed) rows h =
    both rows (All-right _ claimed rows h.0) (unclaimed claimed rows h.1)
  where
    both :
        (rows : List OutboxRow)
        → All (RowsApart x) rows
        → All (λ r. is_claimed claimed r ≡ false) rows
        → All (λ r. is_claimed (x ∷ claimed) r ≡ false) rows
    both [] a b = tt
    both (r ∷ rows) a b = (ground (arith, a.0, b.0), both rows a.1 b.1)

stamp-unclaimed :
    (now : ℕ) (claimed rows : List OutboxRow)
    → All (λ r. is_claimed claimed r ≡ false) rows
    → map (stamp_one now claimed) rows ≡ rows
stamp-unclaimed now claimed [] h = refl
stamp-unclaimed now claimed (r ∷ rows) h =
    rw h.0 (ap (λ (l : List OutboxRow). r ∷ l) (stamp-unclaimed now claimed rows h.1))

pub stamp_facts :
    (now : ℕ) (claimed rows : List OutboxRow)
    → facts_of (map (stamp_one now claimed) rows) ≡ facts_of rows
stamp_facts now claimed [] = refl
stamp_facts now claimed (r ∷ rows) = elim (Bool-cases (is_claimed claimed r)) [
  | inl e ↦ rw e (ap (λ (l : List PublishableFact). fact_of r ∷ l) (stamp_facts now claimed rows))
  | inr e ↦ rw e (ap (λ (l : List PublishableFact). fact_of r ∷ l) (stamp_facts now claimed rows))
]

still_published :
    (now : ℕ) (claimed rows : List OutboxRow)
    → ArePublished true rows
    → ArePublished true (map (stamp_one now claimed) rows)
still_published now claimed [] h = tt
still_published now claimed (r ∷ rows) h = elim (Bool-cases (is_claimed claimed r)) [
  | inl e ↦ rw e (refl, still_published now claimed rows h.1)
  | inr e ↦ rw e (h.0, still_published now claimed rows h.1)
]

now_published :
    (now : ℕ) (before claimed : List OutboxRow)
    → ArePublished true (map (stamp_one now (before ++ claimed)) claimed)
now_published now before [] = tt
now_published now before (r ∷ claimed) = (
  rw (mine before) refl,
  subst (λ l. ArePublished true (map (stamp_one now l) claimed)) (shift before)
      (now_published now (before ++ r ∷ []) claimed),
)
  where
    mine : (before : List OutboxRow) → is_claimed (before ++ r ∷ claimed) r ≡ true
    mine [] = ground (arith, text_eq_refl r.id)
    mine (x ∷ before) = ground (arith, mine before)

    shift : (before : List OutboxRow) → (before ++ r ∷ []) ++ claimed ≡ before ++ r ∷ claimed
    shift [] = refl
    shift (x ∷ before) = ap (λ (l : List OutboxRow). x ∷ l) (shift before)

pub map-append :
    (f : OutboxRow → OutboxRow) (xs ys : List OutboxRow) → map f (xs ++ ys) ≡ map f xs ++ map f ys
map-append f [] ys = refl
map-append f (x ∷ xs) ys = ap (λ (l : List OutboxRow). f x ∷ l) (map-append f xs ys)

-- The rows after a stamp: those stamped before and those claimed are stamped, the others are as they
-- were.
pub stamp-split :
    (now : ℕ) (done claimed left : List OutboxRow)
    → ArePublished true done
    → Pairwise RowsApart (claimed ++ left)
    → (stamp now claimed (done ++ (claimed ++ left))
        ≡ (map (stamp_one now claimed) done ++ map (stamp_one now claimed) claimed) ++ left)
      × ArePublished true (map (stamp_one now claimed) done ++ map (stamp_one now claimed) claimed)
unfolding stamp
stamp-split now done claimed left p d =
    let f = stamp_one now claimed in
    (
      map-append f done (claimed ++ left)
          ∙ ap (λ (l : List OutboxRow). map f done ++ l)
              (map-append f claimed left
                ∙ ap (λ (l : List OutboxRow). map f claimed ++ l)
                    (stamp-unclaimed now claimed left (unclaimed claimed left d)))
          ∙ sym (append_assoc (map f done) (map f claimed) left),
      All-append (λ r. is_published r ≡ true) (map f done) (map f claimed)
          (still_published now claimed done p) (now_published now [] claimed),
    )
