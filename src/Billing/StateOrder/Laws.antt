-- ===== src/Billing/StateOrder/Laws.antt =====
-- What a payment's state does over any news of it.
use mathlib.Core.List.{Permᴰ}
use mathlib.Core.List.{Permᴰ.nil, Permᴰ.cons, Permᴰ.swap, Permᴰ.trans}
use next_stock_oficial.Prelude.{
  ℕ, ◌≤◌, max, ◌≡◌, ◌≢◌, refl, ◌∙◌, sym, ap, subst, true, false, Option, none, some, List, [], ◌∷◌,
  ltb, if◌then◌else◌, arith, Bool-cases, inl, inr, All, is_none,
}
use next_stock_oficial.Billing.StateOrder.{
  PaymentStatus, PaymentState, lifecycle, compare_dates, process_news, process_all, same_status,
}

-- how far a payment has come; 0 where none is known
abbrev pub level : Option PaymentState → ℕ
level none = 0
level (some p) = lifecycle p.status

same_status-lifecycle : (a b : PaymentStatus) → same_status a b ≡ true → lifecycle a ≡ lifecycle b
unfolding lifecycle
same_status-lifecycle a b h = ground arith

lifecycle_distinct : (a b : PaymentStatus) → same_status a b ≡ false → lifecycle a ≢ lifecycle b
unfolding lifecycle
lifecycle_distinct a b h = ground arith

-- A news never lowers the lifecycle of a payment.
pub level-process_news :
    (old : Option PaymentState) (news : PaymentState) → level old ≤ level (process_news old news)
unfolding process_news
level-process_news none news = omega arith
level-process_news (some p) news = elim (Bool-cases (same_status p.status news.status)) [
  | inl same ↦ ground (arith, same, same_status-lifecycle p.status news.status same)
  | inr other ↦ ground (arith, other)
]

-- Without a time the stronger of the two states stays.
process_news_untimed :
    (old : Option PaymentState) (news : PaymentState)
    → is_none news.occurred_at ≡ true
    → level (process_news old news) ≡ max (level old) (lifecycle news.status)
unfolding process_news compare_dates
process_news_untimed none news h = omega arith
process_news_untimed (some p) news h = elim (Bool-cases (same_status p.status news.status)) [
  | inl same ↦ ground (arith, h, same, same_status-lifecycle p.status news.status same)
  | inr other ↦ ground (arith, h, other, lifecycle_distinct p.status news.status other)
]

-- Over any news of a payment, in any order, its lifecycle never goes back.
pub level-process_all :
    (news : List PaymentState) (old : Option PaymentState)
    → level old ≤ level (process_all news old)
unfolding process_all
level-process_all [] old = omega arith
level-process_all (n ∷ news) old =
    omega (arith, level-process_news old n, level-process_all news (process_news old n))

same_status-eq : (a b : PaymentStatus) → lifecycle a ≡ lifecycle b → a ≡ b
unfolding lifecycle
same_status-eq a b h = ground arith

untimed-eq :
    (p q : PaymentState)
    → is_none p.occurred_at ≡ true
    → is_none q.occurred_at ≡ true
    → lifecycle p.status ≡ lifecycle q.status
    → p ≡ q
untimed-eq p q hp hq h =
    let at : p.occurred_at ≡ q.occurred_at = ground (arith, hp, hq) in
    cc (at, same_status-eq p.status q.status h)

-- the state that is further on, the first of two equal ones
abbrev stronger : PaymentState → PaymentState → PaymentState
stronger p q = if ltb (lifecycle p.status) (lifecycle q.status) then q else p

process_news-stronger :
    (p q : PaymentState)
    → is_none q.occurred_at ≡ true
    → process_news (some p) q ≡ some (stronger p q)
unfolding process_news compare_dates
process_news-stronger p q h = elim (Bool-cases (same_status p.status q.status)) [
  | inl same ↦ ground (arith, h, same, same_status-lifecycle p.status q.status same)
  | inr other ↦ ground (arith, h, other, lifecycle_distinct p.status q.status other)
]

stronger_comm :
    (p q : PaymentState)
    → is_none p.occurred_at ≡ true
    → is_none q.occurred_at ≡ true
    → stronger p q ≡ stronger q p
stronger_comm p q hp hq = ground (arith, untimed-eq p q hp hq)

stronger_swap :
    (s p q : PaymentState)
    → is_none p.occurred_at ≡ true
    → is_none q.occurred_at ≡ true
    → stronger (stronger s p) q ≡ stronger (stronger s q) p
stronger_swap s p q hp hq = ground (arith, untimed-eq p q hp hq)

process_swap :
    (old : Option PaymentState) (p q : PaymentState)
    → is_none p.occurred_at ≡ true
    → is_none q.occurred_at ≡ true
    → process_news (process_news old p) q ≡ process_news (process_news old q) p
unfolding process_news
process_swap none p q hp hq =
    process_news-stronger p q hq
    ∙ ap some (stronger_comm p q hp hq)
    ∙ sym (process_news-stronger q p hp)
process_swap (some s) p q hp hq =
    ap (λ x. process_news x q) (process_news-stronger s p hp)
    ∙ process_news-stronger (stronger s p) q hq
    ∙ ap some (stronger_swap s p q hp hq)
    ∙ sym (process_news-stronger (stronger s q) p hp)
    ∙ ap (λ x. process_news x p) (sym (process_news-stronger s q hq))

-- no news has a time
abbrev pub Untimed : List PaymentState → Type 0
Untimed news = All (λ n. is_none n.occurred_at ≡ true) news

Untimed-Perm : {news news' : List PaymentState} → Permᴰ news news' → Untimed news → Untimed news'
Untimed-Perm nil u = u
Untimed-Perm (cons e d) (h, u) = (subst (λ n. is_none n.occurred_at ≡ true) e h, Untimed-Perm d u)
Untimed-Perm (swap e f) (h, (k, u)) = (
  subst (λ n. is_none n.occurred_at ≡ true) f k,
  (subst (λ n. is_none n.occurred_at ≡ true) e h, u),
)
Untimed-Perm (trans d d') u = Untimed-Perm d' (Untimed-Perm d u)

-- Where the provider sends no times, the state that a payment ends in does not depend on the order
-- of the news.
pub process_all-Perm :
    (news news' : List PaymentState) (old : Option PaymentState)
    → Permᴰ news news'
    → Untimed news
    → process_all news old ≡ process_all news' old
unfolding process_all
process_all-Perm [] [] old nil u = refl
process_all-Perm (a ∷ news) (b ∷ news') old (cons e d) (h, u) =
    process_all-Perm news news' (process_news old a) d u
    ∙ ap (λ n. process_all news' (process_news old n)) e
process_all-Perm (a ∷ b ∷ news) (c ∷ d ∷ _) old (swap e f) (h, (k, u)) = ap (process_all news) (
    process_swap old a b h k
    ∙ ap (λ n. process_news (process_news old n) a) f
    ∙ ap (λ n. process_news (process_news old c) n) e)
process_all-Perm news news' old (trans {l₂ = mid} d d') u =
    process_all-Perm news mid old d u ∙ process_all-Perm mid news' old d' (Untimed-Perm d u)
