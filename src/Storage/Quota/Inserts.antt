-- ===== src/Storage/Quota/Inserts.antt =====
-- A counter that is inserted at its first use keeps the unique index and the checks of the table.
use next_stock_oficial.Prelude.{
  ◌≡◌, refl, sym, ap, subst, Bool, false, ◌||◌, List, [], ◌∷◌, ◌++◌, if◌then◌else◌, arith,
  Bool-cases, inl, inr,
}
use next_stock_oficial.Storage.Quota.{Usage, CounterKey, key_eq, Counter}
use next_stock_oficial.Storage.Quota.Reserve.{fresh_counter, insert_counter}
use next_stock_oficial.Storage.Quota.Counters.{has_row, key_eq→≡, key_eq_refl}
use next_stock_oficial.Storage.Quota.Checks.{
  IsChecked, IsChecked-cons, IsChecked-tail, IsChecked-head,
}

has_row-append :
    (k : CounterKey) (counters : List Counter) (c : Counter)
    → has_row (counters ++ (c ∷ [])) k ≡ has_row counters k || key_eq c.key k
has_row-append k [] c = ground arith
has_row-append k (d ∷ counters) c = ground (arith, has_row-append k counters c)

key_eq-sym : (a b : CounterKey) → key_eq a b ≡ false → key_eq b a ≡ false
key_eq-sym a b h = elim (Bool-cases (key_eq b a)) [
  | inr apart ↦ apart
  | inl same ↦ absurd (cc (h, ap (key_eq a) (key_eq→≡ b a same), key_eq_refl a))
]

or_false : (a b : Bool) → a || b ≡ false → (a ≡ false) × (b ≡ false)
or_false a b h = (ground (arith, h), ground (arith, h))

or_drop : (a b c : Bool) → a ≡ b || c → c ≡ false → a ≡ b
or_drop a b c h k = ground (arith, h, k)

append-IsChecked :
    (key : CounterKey) (limit : Usage) (counters : List Counter)
    → IsChecked counters
    → has_row counters key ≡ false
    → IsChecked (counters ++ (fresh_counter key limit ∷ []))
append-IsChecked key limit [] v absent = record { unique = refl; limits = ground arith }
append-IsChecked key limit (c ∷ counters) v absent =
    let (other, rest) = or_false (key_eq c.key key) (has_row counters key) absent in
    IsChecked-cons c c counters (counters ++ (fresh_counter key limit ∷ [])) v
      (append-IsChecked key limit counters (IsChecked-tail c counters v) rest)
      (or_drop _ (has_row counters c.key) (key_eq key c.key)
        (has_row-append c.key counters (fresh_counter key limit)) (key_eq-sym c.key key other))
      refl (IsChecked-head c counters v)

pub insert_counter-IsChecked :
    (key : CounterKey) (limit : Usage) (counters : List Counter)
    → IsChecked counters
    → IsChecked (insert_counter key limit counters)
unfolding insert_counter
insert_counter-IsChecked key limit counters v = elim (Bool-cases (has_row counters key)) [
  | inl there ↦
      subst (λ b. IsChecked (if b then counters else counters ++ (fresh_counter key limit ∷ [])))
        (sym there) v
  | inr absent ↦
      subst (λ b. IsChecked (if b then counters else counters ++ (fresh_counter key limit ∷ [])))
        (sym absent) (append-IsChecked key limit counters v absent)
]
