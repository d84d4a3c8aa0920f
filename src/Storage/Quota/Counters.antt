-- ===== src/Storage/Quota/Counters.antt =====
-- What the updates of the counters do to one counter.
use next_stock_oficial.Prelude.{
  ℕ, ◌+◌, ◌≡◌, refl, ◌∙◌, sym, ap, Bool, true, false, ◌&&◌, ◌||◌, not, some, List, [], ◌∷◌, ◌++◌,
  any, sum_by, sum_by-append, if◌then◌else◌, arith, Bool-cases, Option-cases, inl, inr,
}
use next_stock_oficial.Storage.Quota.{
  Usage, add_usage, sub_usage, within, no_usage, CounterKey, key_eq, Counter, covers,
}
use next_stock_oficial.Storage.Quota.Reserve.{fresh_counter, insert_counter, take_counter}
use next_stock_oficial.Storage.Quota.Settle.{Target, settled_row, settle_counters}

-- what is counted
pub data Measure : Type 0 where
  in_bytes in_files : Measure

abbrev pub amount : Measure → Usage → ℕ
amount in_bytes u = u.bytes
amount in_files u = u.files

-- what is reserved under a key
abbrev pub reserved_at : Measure → CounterKey → List Counter → ℕ
reserved_at m k counters = sum_by (λ c. if key_eq c.key k then amount m c.reserved else 0) counters

-- the rows keep the unique index
abbrev pub unique_keys : List Counter → Bool
unique_keys [] = true
unique_keys (c ∷ counters) =
    let rest = unique_keys counters in not (any (λ d. key_eq d.key c.key) counters) && rest

-- the rows keep the check of their limits
abbrev pub within_limits : List Counter → Bool
within_limits [] = true
within_limits (c ∷ counters) =
    let rest = within_limits counters in within (add_usage c.confirmed c.reserved) c.limit && rest

pub key_eq_refl : (k : CounterKey) → key_eq k k ≡ true
key_eq_refl k = ground arith

pub key_eq→≡ : (a b : CounterKey) → key_eq a b ≡ true → a ≡ b
key_eq→≡ a b h = ground (arith, h)

amount_add : (m : Measure) (a b : Usage) → amount m (add_usage a b) ≡ amount m a + amount m b
amount_add in_bytes a b = refl
amount_add in_files a b = refl

amount_none : (m : Measure) → amount m no_usage ≡ 0
amount_none in_bytes = refl
amount_none in_files = refl

zero_if : (b : Bool) (n s : ℕ) → n ≡ 0 → s + ((if b then n else 0) + 0) ≡ s
zero_if b n s h = ground (arith, h)

pub reserved_at-insert_counter :
    (m : Measure) (k key : CounterKey) (limit : Usage) (counters : List Counter)
    → reserved_at m k (insert_counter key limit counters) ≡ reserved_at m k counters
unfolding insert_counter
reserved_at-insert_counter m k key limit counters =
    elim (Bool-cases (any (λ c. key_eq c.key key) counters)) [
      | inl there ↦ rw there
      | inr absent ↦
          ap
            (λ b.
              reserved_at m k (if b then counters else counters ++ (fresh_counter key limit ∷ [])))
            absent
          ∙ sum_by-append (λ c. if key_eq c.key k then amount m c.reserved else 0) counters
              (fresh_counter key limit ∷ [])
          ∙ zero_if (key_eq key k) (amount m no_usage) (reserved_at m k counters) (amount_none m)
    ]

add_if :
    (b b' : Bool) (x a r s : ℕ)
    → b ≡ b'
    → x ≡ a + r
    → (if b then x else 0) + s ≡ (if b then a else 0) + s + (if b' then r else 0)
add_if b b' x a r s e h = ground (arith, e, h)

pub reserved_at-take_counter :
    (m : Measure) (k key : CounterKey) (requested limit : Usage) (counters : List Counter)
    {counters' : List Counter}
    → take_counter key requested limit counters ≡ some counters'
    → reserved_at m k counters'
      ≡ reserved_at m k counters + (if key_eq key k then amount m requested else 0)
unfolding take_counter
reserved_at-take_counter m k key requested limit [] h = cc
reserved_at-take_counter m k key requested limit (c ∷ counters) {counters'} h =
    elim (Bool-cases (key_eq c.key key)) [
      | inl same ↦
          elim (Bool-cases
            (within (add_usage (add_usage c.confirmed c.reserved) requested) limit)) [
              | inr full ↦ absurd (ground (arith, same, full, h))
              | inl fits ↦
                  let taken = record c {
                    reserved = add_usage c.reserved requested;
                    limit = limit;
                  } in
                  let is : taken ∷ counters ≡ counters' = ground (arith, same, fits, h) in
                  ap (reserved_at m k) (sym is)
                  ∙ add_if (key_eq c.key k) (key_eq key k)
                      (amount m (add_usage c.reserved requested)) (amount m c.reserved)
                      (amount m requested) (reserved_at m k counters)
                      (ap (λ j. key_eq j k) (key_eq→≡ c.key key same))
                      (amount_add m c.reserved requested)
            ]
      | inr other ↦ elim (Option-cases (take_counter key requested limit counters)) [
        | inl full ↦ absurd (ground (arith, other, full, h))
        | inr (rest, taken) ↦
            let is : c ∷ rest ≡ counters' = ground (arith, other, taken, h) in
            ap (reserved_at m k) (sym is)
            ∙ omega (arith, reserved_at-take_counter m k key requested limit counters taken)
      ]
    ]

amount_sub :
    (m : Measure) (a b : Usage)
    → within b a ≡ true
    → amount m (sub_usage a b) + amount m b ≡ amount m a
amount_sub in_bytes a b h = ground (arith, h)
amount_sub in_files a b h = ground (arith, h)

abbrev pub has_row : List Counter → CounterKey → Bool
has_row counters k = any (λ c. key_eq c.key k) counters

or_false : (a b : Bool) → a || b ≡ false → (a ≡ false) × (b ≡ false)
or_false a b h = (ground (arith, h), ground (arith, h))

skip_if : (b : Bool) (x s : ℕ) → b ≡ false → s ≡ 0 → (if b then x else 0) + s ≡ 0
skip_if b x s e h = ground (arith, e, h)

pub reserved_at_none :
    (m : Measure) (k : CounterKey) (counters : List Counter)
    → has_row counters k ≡ false
    → reserved_at m k counters ≡ 0
reserved_at_none m k [] h = refl
reserved_at_none m k (c ∷ counters) h =
    let (other, rest) = or_false (key_eq c.key k) (has_row counters k) h in
    skip_if (key_eq c.key k) (amount m c.reserved) (reserved_at m k counters) other
      (reserved_at_none m k counters rest)

pub not_and : (a b : Bool) → not a && b ≡ true → (a ≡ false) × (b ≡ true)
not_and a b h = (ground (arith, h), ground (arith, h))

-- one counter more: it has the key `k` or not, and its key is covered or not
settle_step :
    (b b' covered covered' row : Bool) (x a r s s' : ℕ)
    → b ≡ b'
    → (b' ≡ true → covered ≡ covered')
    → (b' ≡ true → row ≡ false)
    → (covered ≡ true → x + r ≡ a)
    → (covered ≡ false → x ≡ a)
    → s' + (if covered' && row then r else 0) ≡ s
    → (if b then x else 0) + s' + (if covered' && (b' || row) then r else 0)
      ≡ (if b' then a else 0) + s
settle_step b b' covered covered' row x a r s s' e c u f g h = ground (arith, e, c, u, f, g, h)

no_row : (b : Bool) (n : ℕ) → 0 + (if b && false then n else 0) ≡ 0
no_row b n = ground arith

-- The settlement of an amount takes it from every counter that is covered, where there is one.
pub reserved_at-settle_counters :
    (m : Measure) (k : CounterKey) (target : Target) (keys : List CounterKey) (requested : Usage)
    (counters : List Counter) {settled : List Counter}
    → unique_keys counters ≡ true
    → settle_counters target keys requested counters ≡ some settled
    → reserved_at m k settled
        + (if covers keys k && has_row counters k then amount m requested else 0)
      ≡ reserved_at m k counters
unfolding settle_counters
reserved_at-settle_counters m k target keys requested [] {settled} u h =
    let is : [] ≡ settled = ground (arith, h) in
    ap (λ x. reserved_at m k x + (if covers keys k && false then amount m requested else 0))
      (sym is)
    ∙ no_row (covers keys k) (amount m requested)
reserved_at-settle_counters m k target keys requested (c ∷ counters) {settled} u h =
    let (fresh, unique) = not_and (has_row counters c.key) (unique_keys counters) u in
    elim (Option-cases (settle_counters target keys requested counters)) [
      | inl failed ↦ absurd (ground (arith, failed, h))
      | inr (rest, done) ↦
          let ih = reserved_at-settle_counters m k target keys requested counters unique done in
          let gone = if covers keys k && has_row (c ∷ counters) k then amount m requested else 0 in
          let covered : key_eq c.key k ≡ true → covers keys c.key ≡ covers keys k =
            λ e. ap (covers keys) (key_eq→≡ c.key k e) in
          let single : key_eq c.key k ≡ true → has_row counters k ≡ false =
            λ e. ap (has_row counters) (sym (key_eq→≡ c.key k e)) ∙ fresh in
          let with_row = λ (x : Counter). λ (same : x.key ≡ c.key).
            λ (f : covers keys c.key ≡ true
                → amount m x.reserved + amount m requested ≡ amount m c.reserved).
              λ (g : covers keys c.key ≡ false → amount m x.reserved ≡ amount m c.reserved).
                settle_step (key_eq x.key k) (key_eq c.key k) (covers keys c.key) (covers keys k)
                  (has_row counters k) (amount m x.reserved) (amount m c.reserved)
                  (amount m requested) (reserved_at m k counters) (reserved_at m k rest)
                  (ap (λ j. key_eq j k) same) covered single f g ih in
          elim (Bool-cases (covers keys c.key)) [
            | inr apart ↦
                let is : c ∷ rest ≡ settled = ground (arith, done, apart, h) in
                ap (λ x. reserved_at m k x + gone) (sym is)
                ∙ with_row c refl (λ e. absurd (cc (e, apart))) (λ e. refl)
            | inl meets ↦ elim (Bool-cases (within requested c.reserved)) [
              | inr short ↦ absurd (ground (arith, done, meets, short, h))
              | inl fits ↦
                  let new = settled_row target requested c in
                  let is : new ∷ rest ≡ settled = ground (arith, done, meets, fits, h) in
                  ap (λ x. reserved_at m k x + gone) (sym is)
                  ∙ with_row new refl (λ e. amount_sub m c.reserved requested fits)
                      (λ e. absurd (cc (e, meets)))
            ]
          ]
    ]
