-- ===== src/Demand/Mediate/Winner.antt =====
-- The winner of mediation, and the trace that it leaves.
use adgate.Prelude.{
  ℕ, String, ◌≡◌, refl, sym, ap, ◌∙◌, subst, ◌↔◌, inl, inr, Bool, true, false, not, Bool-cases,
  Option, none, some, List, [], ◌∷◌, arith, Among, All-Among, Among-append, Among-selected,
}
use adgate.Demand.Ranking.{sort, is_positive}
use adgate.Demand.Ranking.Order.{
  Before, sort-Among, Sorted, sort-Sorted, compare_by_revenue-trans, compare_by_revenue-total,
}
use adgate.Demand.Mediate.{Adapter, EligibleCandidate, compare_eligible, winner_of}
use adgate.Demand.Mediate.Selection.{is_out, eligible_in, answer_of, all_eligible}

not-true : (b : Bool) → not b ≡ true → b ≡ false
not-true b h = ground arith

module _ (cut : String → String) (exclusions : List String) (timeout : ℕ) where
  -- The answer of one of the adapters holds the candidate, whose advertiser is not excluded.
  abbrev pub Offered : List Adapter → EligibleCandidate → Type 0
  Offered adapters e =
      (adapter : Adapter) × Among adapter adapters
      × (adapter.source ≡ e.source)
      × Among e.candidate (answer_of cut exclusions timeout adapter)
      × (is_out cut exclusions e.candidate ≡ false)

  all_eligible-Offered :
      (adapters : List Adapter) (e : EligibleCandidate)
      → Among e (all_eligible cut exclusions timeout adapters) ↔ Offered adapters e
  all_eligible-Offered [] e = (λ h. absurd h, λ h. absurd (h.1))
  all_eligible-Offered (a ∷ as') e =
      let ih = all_eligible-Offered as' e in
      let split =
        Among-append e (eligible_in cut exclusions a.source (answer_of cut exclusions timeout a))
          (all_eligible cut exclusions timeout as') in
      let own =
        Among-selected (λ c. record { source = a.source; candidate = c })
          (λ c. not (is_out cut exclusions c)) e (answer_of cut exclusions timeout a) in
      (
        λ h. elim (split.0 h) [
          | inl k ↦
              let (c, m, kept, same) = own.0 k in
              (
                a,
                inl refl,
                ap (λ x. x.source) same,
                subst (λ x. Among x (answer_of cut exclusions timeout a))
                    (ap (λ x. x.candidate) same) m,
                sym (ap (λ x. is_out cut exclusions x.candidate) same) ∙ not-true _ kept,
              )
          | inr k ↦ let (d, m, at, offered, kept) = ih.0 k in (d, inr m, at, offered, kept)
        ],
        λ (d, m, at, offered, kept). elim m [
          | inl same ↦ split.1 (
              inl (
                own.1 (
                  e.candidate,
                  subst (λ x. Among e.candidate (answer_of cut exclusions timeout x)) (sym same)
                      offered,
                  ap not kept,
                  ap (λ x. record { source = x; candidate = e.candidate })
                      (ap (λ x. x.source) same ∙ at),
                )))
          | inr k ↦ split.1 (inr (ih.1 (d, k, at, offered, kept)))
        ],
      )

  -- `e` is offered, and no offered candidate ranks before it.
  abbrev pub Wins : List Adapter → EligibleCandidate → Type 0
  Wins adapters e =
      Offered adapters e
      × ((other : EligibleCandidate) → Offered adapters other → Before compare_eligible e other)

  abbrev pub IsWinner : List Adapter → Option EligibleCandidate → Type 0
  IsWinner adapters none = (e : EligibleCandidate) → Offered adapters e → ⊥
  IsWinner adapters (some e) = Wins adapters e

  abbrev pub ranked : List Adapter → List EligibleCandidate
  ranked adapters = sort compare_eligible (all_eligible cut exclusions timeout adapters)

  ranked-Offered :
      (adapters : List Adapter) (e : EligibleCandidate)
      → Among e (ranked adapters) ↔ Offered adapters e
  ranked-Offered adapters e =
      let s = sort-Among compare_eligible e (all_eligible cut exclusions timeout adapters) in
      let o = all_eligible-Offered adapters e in (λ h. o.0 (s.0 h), λ h. s.1 (o.1 h))

  ranked-Sorted :
      (adapters : List Adapter)
      → Sorted compare_eligible
          (λ a b c. compare_by_revenue-trans a.candidate b.candidate c.candidate)
          (λ a b. compare_by_revenue-total a.candidate b.candidate)
          (ranked adapters)
  ranked-Sorted adapters =
      sort-Sorted compare_eligible
        (λ a b c. compare_by_revenue-trans a.candidate b.candidate c.candidate)
        (λ a b. compare_by_revenue-total a.candidate b.candidate)
        (all_eligible cut exclusions timeout adapters)

  own_rank : (e : EligibleCandidate) → Before compare_eligible e e
  own_rank e = elim (Bool-cases (is_positive (compare_eligible e e))) [
    | inl behind ↦ compare_by_revenue-total e.candidate e.candidate behind
    | inr before ↦ before
  ]

  -- The first of a sorted list of the offered candidates is the winner.
  first-IsWinner :
      (adapters : List Adapter) (l : List EligibleCandidate)
      → ((e : EligibleCandidate) → Among e l ↔ Offered adapters e)
      → Sorted compare_eligible
          (λ a b c. compare_by_revenue-trans a.candidate b.candidate c.candidate)
          (λ a b. compare_by_revenue-total a.candidate b.candidate)
          l
      → IsWinner adapters (winner_of l)
  first-IsWinner adapters [] same s = λ e. (same e).1
  first-IsWinner adapters (best ∷ rest) same (first, s) = (
    (same best).0 (inl refl),
    λ other offered. elim ((same other).1 offered) [
      | inl e ↦ subst (Before compare_eligible best) e (own_rank best)
      | inr m ↦ All-Among (Before compare_eligible best) rest other first m
    ],
  )

  pub winner_lem : (adapters : List Adapter) → IsWinner adapters (winner_of (ranked adapters))
  winner_lem adapters =
      first-IsWinner adapters (ranked adapters) (ranked-Offered adapters) (ranked-Sorted adapters)
