-- ===== src/Dao/Views/Pages.antt =====
-- Reading the proposals page by page: `get_proposals` of sputnikdao2/src/views.rs.
use sputnik_dao_contract.Base.{
  ℕ, zero, suc, ◌+◌, ◌-◌, ◌≤◌, ◌<◌, min, ◌≡◌, refl, sym, ◌∙◌, ap, subst, ◌↔◌, ◌⊎◌, inl, inr, Option,
  none, some, List, [], ◌∷◌, ◌++◌, In, nat_key, Option-cases, arith,
}
use sputnik_dao_contract.Map
use sputnik_dao_contract.Result.{ok, ◌>>=◌, u64_mod}
use sputnik_dao_contract.Dao.Contract.{Contract}
use sputnik_dao_contract.Dao.Views.{
  ProposalOutput, range, cons_some, filter_map, page, proposal_output, get_proposals,
}
use sputnik_dao_contract.Dao.Invariant.{AreProposals}

range-append : (i m n : ℕ) → range i m ++ range (i + m) n ≡ range i (m + n)
unfolding range
range-append i zero n =
    let here : i + 0 ≡ i = omega arith in
    let all : n ≡ 0 + n = omega arith in ap (λ k. range k n) here ∙ ap (range i) all
range-append i (suc m) n =
    let next : i + suc m ≡ i + 1 + m = omega arith in
    let all : suc (m + n) ≡ suc m + n = omega arith in
    ap (λ k. i ∷ (range (i + 1) m ++ range k n)) next
    ∙ ap (λ ids. i ∷ ids) (range-append (i + 1) m n)
    ∙ ap (range i) all

here_or_later : (i id : ℕ) → i ≤ id → (i ≡ id) ⊎ (i + 1 ≤ id)
here_or_later i id lo = ground arith

module _ {A : Type 0} (f : ℕ → Option A) where
  cons_some-append : (o : Option A) (xs ys : List A) → cons_some o xs ++ ys ≡ cons_some o (xs ++ ys)
  cons_some-append none xs ys = refl
  cons_some-append (some a) xs ys = refl

  filter_map-append :
      (xs ys : List ℕ) → filter_map f (xs ++ ys) ≡ filter_map f xs ++ filter_map f ys
  unfolding filter_map
  filter_map-append [] ys = refl
  filter_map-append (x ∷ xs) ys =
      ap (cons_some (f x)) (filter_map-append xs ys)
      ∙ sym (cons_some-append (f x) (filter_map f xs) (filter_map f ys))

  In-cons_some :
      (a : A) (o : Option A) (xs : List A) → In a (cons_some o xs) → (o ≡ some a) ⊎ In a xs
  In-cons_some a none xs i = inr i
  In-cons_some a (some b) xs (inl e) = inl (ap some (sym e))
  In-cons_some a (some b) xs (inr i) = inr i

  cons_some-In :
      (a : A) (o : Option A) (xs : List A) → (o ≡ some a) ⊎ In a xs → In a (cons_some o xs)
  cons_some-In a none xs (inl e) = cc
  cons_some-In a none xs (inr i) = i
  cons_some-In a (some b) xs (inl e) = inl (cc)
  cons_some-In a (some b) xs (inr i) = inr i

  listed-range :
      (a : A) (i n : ℕ)
      → In a (filter_map f (range i n))
      → (id : ℕ) × (i ≤ id) × (id < i + n) × (f id ≡ some a)
  unfolding filter_map range
  listed-range a i zero x = absurd x
  listed-range a i (suc n) x = elim (In-cons_some a (f i) _ x) [
    | inl e ↦ (i, omega arith, omega arith, e)
    | inr rest ↦
        let (id, lo, hi, e) = listed-range a (i + 1) n rest in (id, omega arith, omega arith, e)
  ]

  range-listed :
      (a : A) (i n id : ℕ) → i ≤ id → id < i + n → f id ≡ some a → In a (filter_map f (range i n))
  unfolding filter_map range
  range-listed a i zero id lo hi e = absurd (omega arith)
  range-listed a i (suc n) id lo hi e = cons_some-In a (f i) _ (elim (here_or_later i id lo) [
    | inl same ↦ inl (subst (λ k. f k ≡ some a) (sym same) e)
    | inr later ↦ inr (range-listed a (i + 1) n id later (omega arith) e)
  ])

min-sub-add :
    (last i m n : ℕ)
    → min last (i + (m + n)) - i ≡ (min last (i + m) - i) + (min last (i + m + n) - (i + m))
min-sub-add last i m n = omega arith

page_end : (last i m n : ℕ) → (min last (i + m) - i ≡ m) ⊎ (min last (i + m + n) - (i + m) ≡ 0)
page_end last i m n = grind arith

-- The second page starts where the first one ends, unless the first one ends the list.
second_page :
    (last i m n : ℕ)
    → range (i + (min last (i + m) - i)) (min last (i + m + n) - (i + m))
      ≡ range (i + m) (min last (i + m + n) - (i + m))
unfolding range
second_page last i m n = elim (page_end last i m n) [
  | inl full ↦ ap (λ k. range (i + k) (min last (i + m + n) - (i + m))) full
  | inr over ↦ rw over refl
]

get_proposals_fits :
    (c : Contract) (i n : ℕ)
    → i + n < u64_mod
    → get_proposals c i n
      ≡ ok (filter_map (proposal_output c) (range i (min c.last_proposal_id (i + n) - i)))
unfolding get_proposals page
get_proposals_fits c i n fits = ground arith

get_proposals_ok :
    (c : Contract) (i n : ℕ) {outputs : List ProposalOutput}
    → get_proposals c i n ≡ ok outputs
    → outputs ≡ filter_map (proposal_output c) (range i (min c.last_proposal_id (i + n) - i))
unfolding get_proposals page
get_proposals_ok c i n e = ground arith

-- Two pages that follow one another, where the ids stay in 64 bits, are one page of their lengths together.
pub get_proposals-pages :
    (c : Contract) (i m n : ℕ)
    → i + (m + n) < u64_mod
    → get_proposals c i (m + n)
      ≡ (do xs ← get_proposals c i m; ys ← get_proposals c (i + m) n; ok (xs ++ ys))
get_proposals-pages c i m n fits =
    let last = c.last_proposal_id in
    let f = proposal_output c in
    let a : ℕ = min last (i + m) - i in
    let b : ℕ = min last (i + m + n) - (i + m) in
    get_proposals_fits c i (m + n) fits
    ∙ ap (λ k. ok (filter_map f (range i k))) (min-sub-add last i m n)
    ∙ ap (λ ids. ok (filter_map f ids)) (sym (range-append i a b))
    ∙ ap ok (filter_map-append f (range i a) (range (i + a) b))
    ∙ ap (λ ids. ok (filter_map f (range i a) ++ filter_map f ids)) (second_page last i m n)
    ∙ sym (
        rw (get_proposals_fits c i m (omega arith), get_proposals_fits c (i + m) n (omega arith))
          refl)

proposal_output-get :
    (c : Contract) (id : ℕ) (o : ProposalOutput)
    → (proposal_output c id ≡ some o) ↔ ((id ≡ o.id) × (Map.get c.proposals id ≡ some o.proposal))
unfolding proposal_output
proposal_output-get c id o = elim (Option-cases (Map.get c.proposals id)) [
  | inl missing ↦ (λ e. ground arith, λ g. ground arith)
  | inr (p, found) ↦ (λ e. ground arith, λ g. ground arith)
]

-- Where every stored proposal has an id that was given out, a page that get_proposals returns lists
-- exactly the stored proposals whose ids are in the page's range, each with its id.
pub get_proposals_lem :
    (c : Contract) (from_index limit : ℕ) (outputs : List ProposalOutput) (o : ProposalOutput)
    → AreProposals c.proposals c.last_proposal_id
    → get_proposals c from_index limit ≡ ok outputs
    → In o outputs ↔ (
        (from_index ≤ o.id)
        × (o.id < from_index + limit)
        × (Map.get c.proposals o.id ≡ some o.proposal))
get_proposals_lem c from_index limit outputs o are e =
    let listing = get_proposals_ok c from_index limit e in
    let size : ℕ = min c.last_proposal_id (from_index + limit) - from_index in
    (
      λ i.
          let (id, lo, hi, found) =
            listed-range (proposal_output c) o from_index size (subst (In o) listing i) in
          let (same, stored) = (proposal_output-get c id o).0 found in
          in_page id (omega arith) (omega arith) same stored,
      λ p.
          let (lo, hi, stored) = p in
          let given = are.below o.id o.proposal stored in
          subst (In o) (sym listing) (
            range-listed (proposal_output c) o from_index size o.id lo (omega arith)
              ((proposal_output-get c o.id o).1 (refl, stored))),
    )
  where
    in_page :
        (id : ℕ)
        → from_index ≤ id
        → id < from_index + limit
        → id ≡ o.id
        → Map.get c.proposals id ≡ some o.proposal
        → (from_index ≤ o.id)
          × (o.id < from_index + limit)
          × (Map.get c.proposals o.id ≡ some o.proposal)
    in_page id lo hi same stored =
        (omega arith, omega arith, subst (λ k. Map.get c.proposals k ≡ some o.proposal) same stored)
