-- ===== src/Saga/Commands/Unique.antt =====
-- The unique key of the table of owed commands, through its insertions.
use order_to_cash_nestjs.Saga.Commands.{CommandRow, kind_eq, enqueue, is_row_of, clashes}
use order_to_cash_nestjs.Saga.Steps.{CommandKind, reserve_stock}
use order_to_cash_nestjs.Base.{
  ◌≡◌, refl, Bool, false, List, [], ◌∷◌, ◌++◌, any, arith, Bool-cases, inl, inr,
}
use order_to_cash_nestjs.Base.Text.{text_eq_iff}

-- At most one row for each order and command.
abbrev pub OneEach : List CommandRow → Type 0
OneEach [] = Unit
OneEach (row ∷ rows) = (any (is_row_of row.order_id row.command) rows ≡ false) × OneEach rows

pub kind_eq-sym : (a b : CommandKind) → kind_eq a b ≡ kind_eq b a
kind_eq-sym reserve_stock b = ground arith
kind_eq-sym _ b = ground arith

pub is_row_of-sym :
    (a b : CommandRow)
    → is_row_of a.order_id a.command b ≡ false
    → is_row_of b.order_id b.command a ≡ false
is_row_of-sym a b h = ground (
  arith,
  kind_eq-sym a.command b.command,
  text_eq_iff a.order_id b.order_id,
  text_eq_iff b.order_id a.order_id,
  h,
)

pub any-append_one :
    (p : CommandRow → Bool) (rows : List CommandRow) (row : CommandRow)
    → any p rows ≡ false
    → p row ≡ false
    → any p (rows ++ row ∷ []) ≡ false
any-append_one p [] row h k = ground (arith, k)
any-append_one p (r ∷ rows) row h k = ground (arith, h, k, any-append_one p rows row)

pub OneEach-append :
    (rows : List CommandRow) (row : CommandRow)
    → any (is_row_of row.order_id row.command) rows ≡ false
    → OneEach rows
    → OneEach (rows ++ row ∷ [])
OneEach-append [] row h v = (refl, tt)
OneEach-append (r ∷ rows) row h v = (
  any-append_one (is_row_of r.order_id r.command) rows row v.0
      (is_row_of-sym row r (ground (arith, h))),
  OneEach-append rows row (ground (arith, h)) v.1,
)

no_clash :
    (row : CommandRow) (rows : List CommandRow)
    → any (clashes row) rows ≡ false
    → any (is_row_of row.order_id row.command) rows ≡ false
no_clash row [] h = refl
no_clash row (r ∷ rows) h = ground (arith, h, no_clash row rows)

pub enqueue-OneEach :
    (row : CommandRow) (rows : List CommandRow) → OneEach rows → OneEach (enqueue row rows)
unfolding enqueue
enqueue-OneEach row rows v = elim (Bool-cases (any (clashes row) rows)) [
  | inl there ↦ rw there v
  | inr new ↦ rw new (OneEach-append rows row (no_clash row rows new) v)
]
