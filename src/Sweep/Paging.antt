-- ===== src/Sweep/Paging.antt =====
-- app/sweep/client.py: when the paging through a window comes to its end.
use rfp_shred.Prelude.{
  ==_iff, Bool-cases, List, Option, [], arith, false, false≢true, inl, inr, length, lt→ltb, none,
  refl, some, subst, suc, sym, true, zero, ℕ, ◌*◌, ◌+◌, ◌<◌, ◌==◌, ◌∙◌, ◌≡◌, ◌≤◌,
}
use rfp_shred.Sweep.Client.{
  fetch_postings, fetch_from, on_page, page_limit, RawNotice, FetchResult, Search,
}

-- The answer to request `n` ends the loop: a page that is not full, or a failure from the eleventh
-- request on.
abbrev pub EndsAt : ℕ → Option (List RawNotice) → Type 0
EndsAt n none = 10 ≤ n
EndsAt n (some raws) = length raws < page_limit

on_page-EndsAt :
    (n : ℕ) (answer : Option (List RawNotice)) (r : FetchResult)
    → EndsAt n answer
    → (on_page answer (n * page_limit) r).0 ≡ false
on_page-EndsAt n none r h = ground arith
on_page-EndsAt n (some raws) r h = ground (arith, lt→ltb (length raws) page_limit h)

module _ (search : Search) where
  fetch_from_terminates :
      (fuel n last : ℕ) (r : FetchResult)
      → n ≤ last
      → last < n + fuel
      → EndsAt last (search last)
      → (final : FetchResult) × (fetch_from search fuel n r ≡ some final)
  unfolding fetch_from
  fetch_from_terminates zero n last r le lt ends = absurd (omega arith)
  fetch_from_terminates (suc fuel) n last r le lt ends =
      let round = on_page (search n) (n * page_limit) r in
      elim (Bool-cases round.0) [
        | inl more ↦
            let later : n + 1 ≤ last = not_last more in
            let (final, e) =
              fetch_from_terminates fuel (n + 1) last round.1 later (omega arith) ends in
            (final, rw more e)
        | inr done ↦ (round.1, rw done refl)
      ]
    where
      not_last : (on_page (search n) (n * page_limit) r).0 ≡ true → n + 1 ≤ last
      not_last more = elim (Bool-cases (n == last)) [
        | inl e ↦
            let same : last ≡ n = sym ((==_iff n last).0 e) in
            let stop = on_page-EndsAt n (search n) r (subst (λ k. EndsAt k (search k)) same ends) in
            absurd (false≢true (sym stop ∙ more))
        | inr e ↦ ground (arith, ==_iff n last)
      ]

  -- Where the n-th answer is a page that is not full, or fails and is at least the eleventh, the paging
  -- returns after at most that many requests and one. On an endpoint that always fails these are eleven.
  pub fetch_postings_terminates :
      (fuel last : ℕ)
      → last < fuel
      → EndsAt last (search last)
      → (result : FetchResult) × (fetch_postings search fuel ≡ some result)
  unfolding fetch_postings
  fetch_postings_terminates fuel last lt ends =
      fetch_from_terminates fuel 0 last (record { notices = []; errors = []; calls = 0 })
        (omega arith) (omega arith) ends
