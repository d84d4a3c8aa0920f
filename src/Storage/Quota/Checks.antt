-- ===== src/Storage/Quota/Checks.antt =====
-- The table of the counters keeps its unique index and its checks, and a settlement that is
-- covered by what is reserved goes through.
use next_stock_oficial.Prelude.{
  ◌≡◌, refl, ◌∙◌, sym, ap, subst, Bool, true, false, ◌&&◌, ◌||◌, not, some, List, [], ◌∷◌, arith,
  Bool-cases, Option-cases, inl, inr,
}
use next_stock_oficial.Storage.Quota.{
  Usage, add_usage, sub_usage, within, CounterKey, key_eq, Counter, covers,
}
use next_stock_oficial.Storage.Quota.Reserve.{take_counter}
use next_stock_oficial.Storage.Quota.Settle.{
  Target, to_confirmed, to_released, moved_usage, settled_row, settle_counters,
}
use next_stock_oficial.Storage.Quota.Counters.{unique_keys, within_limits, has_row, not_and}

-- the keys stay the same
has_row-take_counter :
    (k key : CounterKey) (requested limit : Usage) (counters : List Counter)
    {counters' : List Counter}
    → take_counter key requested limit counters ≡ some counters'
    → has_row counters' k ≡ has_row counters k
unfolding take_counter
has_row-take_counter k key requested limit [] h = cc
has_row-take_counter k key requested limit (c ∷ counters) {counters'} h =
    elim (Bool-cases (key_eq c.key key)) [
      | inl same ↦
          elim (Bool-cases
            (within (add_usage (add_usage c.confirmed c.reserved) requested) limit)) [
              | inr full ↦ absurd (ground (arith, same, full, h))
              | inl fits ↦
                  let taken = record c {
                    reserved = add_usage c.reserved requested;
                    limit = limit;
                  } in
                  let is : taken ∷ counters ≡ counters' = ground (arith, same, fits, h) in
                  ap (λ x. has_row x k) (sym is)
            ]
      | inr other ↦ elim (Option-cases (take_counter key requested limit counters)) [
        | inl full ↦ absurd (ground (arith, other, full, h))
        | inr (rest, taken) ↦
            let is : c ∷ rest ≡ counters' = ground (arith, other, taken, h) in
            ap (λ x. has_row x k) (sym is)
            ∙ ap (λ b. key_eq c.key k || b)
                (has_row-take_counter k key requested limit counters taken)
      ]
    ]

and_true : (a b : Bool) → a ≡ true → b ≡ true → a && b ≡ true
and_true a b h k = ground (arith, h, k)

and_parts : (a b : Bool) → a && b ≡ true → (a ≡ true) × (b ≡ true)
and_parts a b h = (ground (arith, h), ground (arith, h))

absent_and : (a b : Bool) → a ≡ false → b ≡ true → not a && b ≡ true
absent_and a b h k = ground (arith, h, k)

within_move :
    (a b c limit : Usage)
    → within (add_usage (add_usage a b) c) limit ≡ true
    → within (add_usage a (add_usage b c)) limit ≡ true
within_move a b c limit h = ground (arith, h)

within_settled :
    (target : Target) (a b c limit : Usage)
    → within (add_usage a b) limit ≡ true
    → within c b ≡ true
    → within (add_usage (add_usage a (moved_usage target c)) (sub_usage b c)) limit ≡ true
within_settled to_confirmed a b c limit h k = ground (arith, h, k)
within_settled to_released a b c limit h k = ground (arith, h, k)

-- the index and the checks of the table
pub record IsChecked (counters : List Counter) : Type 0 where
  pub unique : unique_keys counters ≡ true
  pub limits : within_limits counters ≡ true

pub IsChecked-cons :
    (c d : Counter) (counters counters' : List Counter)
    → IsChecked (c ∷ counters)
    → IsChecked counters'
    → has_row counters' c.key ≡ has_row counters c.key
    → d.key ≡ c.key
    → within (add_usage d.confirmed d.reserved) d.limit ≡ true
    → IsChecked (d ∷ counters')
IsChecked-cons c d counters counters' v w same key fits =
    let (fresh, _) = not_and (has_row counters c.key) (unique_keys counters) v.unique in
    record {
      unique =
          absent_and (has_row counters' d.key) (unique_keys counters')
            (ap (has_row counters') key ∙ same ∙ fresh) w.unique;
      limits =
          and_true (within (add_usage d.confirmed d.reserved) d.limit) (within_limits counters')
            fits w.limits;
    }

pub IsChecked-tail :
    (c : Counter) (counters : List Counter) → IsChecked (c ∷ counters) → IsChecked counters
IsChecked-tail c counters v = record {
  unique = (not_and (has_row counters c.key) (unique_keys counters) v.unique).1;
  limits =
      (and_parts (within (add_usage c.confirmed c.reserved) c.limit) (within_limits counters)
        v.limits).1;
}

pub IsChecked-head :
    (c : Counter) (counters : List Counter)
    → IsChecked (c ∷ counters)
    → within (add_usage c.confirmed c.reserved) c.limit ≡ true
IsChecked-head c counters v =
    (and_parts (within (add_usage c.confirmed c.reserved) c.limit) (within_limits counters)
      v.limits).0

-- The update of a counter keeps the index and the checks.
pub take_counter-IsChecked :
    (key : CounterKey) (requested limit : Usage) (counters : List Counter)
    {counters' : List Counter}
    → IsChecked counters
    → take_counter key requested limit counters ≡ some counters'
    → IsChecked counters'
unfolding take_counter
take_counter-IsChecked key requested limit [] v h = cc
take_counter-IsChecked key requested limit (c ∷ counters) {counters'} v h =
    let tail = IsChecked-tail c counters v in
    elim (Bool-cases (key_eq c.key key)) [
      | inl same ↦
          elim (Bool-cases
            (within (add_usage (add_usage c.confirmed c.reserved) requested) limit)) [
              | inr full ↦ absurd (ground (arith, same, full, h))
              | inl fits ↦
                  let taken = record c {
                    reserved = add_usage c.reserved requested;
                    limit = limit;
                  } in
                  let is : taken ∷ counters ≡ counters' = ground (arith, same, fits, h) in
                  subst IsChecked is (
                    IsChecked-cons c taken counters counters v tail refl refl
                      (within_move c.confirmed c.reserved requested limit fits))
            ]
      | inr other ↦ elim (Option-cases (take_counter key requested limit counters)) [
        | inl full ↦ absurd (ground (arith, other, full, h))
        | inr (rest, taken) ↦
            let is : c ∷ rest ≡ counters' = ground (arith, other, taken, h) in
            subst IsChecked is (
              IsChecked-cons c c counters rest v
                (take_counter-IsChecked key requested limit counters tail taken)
                (has_row-take_counter c.key key requested limit counters taken) refl
                (IsChecked-head c counters v))
      ]
    ]

-- What a settlement does to the table: it keeps the keys, the index and the checks.
pub settle_counters-IsChecked :
    (target : Target) (keys : List CounterKey) (requested : Usage) (counters : List Counter)
    {settled : List Counter}
    → IsChecked counters
    → settle_counters target keys requested counters ≡ some settled
    → IsChecked settled × ((k : CounterKey) → has_row settled k ≡ has_row counters k)
unfolding settle_counters
settle_counters-IsChecked target keys requested [] {settled} v h =
    let is : [] ≡ settled = ground (arith, h) in
    (subst IsChecked is v, λ k. ap (λ x. has_row x k) (sym is))
settle_counters-IsChecked target keys requested (c ∷ counters) {settled} v h =
    elim (Option-cases (settle_counters target keys requested counters)) [
      | inl failed ↦ absurd (ground (arith, failed, h))
      | inr (rest, done) ↦
          let (w, same) =
            settle_counters-IsChecked target keys requested counters (IsChecked-tail c counters v)
              done in
          elim (Bool-cases (covers keys c.key)) [
            | inr apart ↦
                let is : c ∷ rest ≡ settled = ground (arith, done, apart, h) in
                (
                  subst IsChecked is (
                      IsChecked-cons c c counters rest v w (same c.key) refl
                        (IsChecked-head c counters v)),
                  λ k. ap (λ x. has_row x k) (sym is) ∙ ap (λ b. key_eq c.key k || b) (same k),
                )
            | inl meets ↦ elim (Bool-cases (within requested c.reserved)) [
              | inr short ↦ absurd (ground (arith, done, meets, short, h))
              | inl fits ↦
                  let new = settled_row target requested c in
                  let is : new ∷ rest ≡ settled = ground (arith, done, meets, fits, h) in
                  (
                    subst IsChecked is (
                        IsChecked-cons c new counters rest v w (same c.key) refl (
                          within_settled target c.confirmed c.reserved requested c.limit
                            (IsChecked-head c counters v) fits)),
                    λ k. ap (λ x. has_row x k) (sym is) ∙ ap (λ b. key_eq c.key k || b) (same k),
                  )
            ]
          ]
    ]
