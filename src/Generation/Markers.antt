-- ===== src/Generation/Markers.antt =====
-- The markers of an answer: which are cited, and which point at nothing.
use a_pag_ai_knowledge_base.Prelude.{
  ℕ, zero, suc, ◌-◌, ◌≡◌, ◌≤◌, refl, ap, ◌∙◌, Bool, true, not, ◌&&◌, ◌||◌, Bool-cases, inl, inr,
  Option, none, some, List, [], ◌∷◌, ◌++◌, any, All, All-append, get_elem?, length, Text, leb, ◌==◌,
  ==_iff, if◌then◌else◌, if_either, arith,
}
use a_pag_ai_knowledge_base.Retrieval.Search.{RetrievedChunk}
use a_pag_ai_knowledge_base.Generation.{
  Citation, Writing, is_valid_marker, is_listed_in, collect, insert_number, sort_numbers, cite,
  citations_of, numbers_in, verify_citations,
}

insert_number-listed :
    (n m : ℕ) (l : List ℕ) → is_listed_in n (insert_number m l) ≡ is_listed_in n (m ∷ l)
unfolding insert_number
insert_number-listed n m [] = refl
insert_number-listed n m (k ∷ l) = ground (arith, insert_number-listed n m l)

sort_numbers-listed : (n : ℕ) (l : List ℕ) → is_listed_in n (sort_numbers l) ≡ is_listed_in n l
unfolding sort_numbers
sort_numbers-listed n [] = refl
sort_numbers-listed n (m ∷ l) =
    insert_number-listed n m (sort_numbers l) ∙ ap (λ b. (m == n) || b) (sort_numbers-listed n l)

listed-append :
    (n m : ℕ) (l : List ℕ) → is_listed_in n (l ++ m ∷ []) ≡ (is_listed_in n l || (m == n))
listed-append n m [] = ground arith
listed-append n m (k ∷ l) = ground (arith, listed-append n m l)

collect-listed :
    (test : ℕ → Bool) (n : ℕ) (seen numbers : List ℕ)
    → is_listed_in n (collect test seen numbers)
      ≡ (is_listed_in n seen || (test n && is_listed_in n numbers))
unfolding collect
collect-listed test n seen [] = ground arith
collect-listed test n seen (m ∷ numbers) =
    collect-listed test n (if test m && not (is_listed_in m seen) then seen ++ m ∷ [] else seen)
      numbers
    ∙ elim (Bool-cases (m == n)) [
      | inr differ ↦ ground (arith, differ, listed-append n m seen)
      | inl same ↦
          let eq : m ≡ n = (==_iff m n).0 same in
          ground (arith, same, ap test eq, ap (λ k. is_listed_in k seen) eq, listed-append n m seen)
    ]

module _ {ℓ} (P : ℕ → Type ℓ) where
  insert_number-All : (n : ℕ) (l : List ℕ) → P n → All P l → All P (insert_number n l)
  unfolding insert_number
  insert_number-All n [] h k = (h, tt)
  insert_number-All n (m ∷ l) h k =
      if_either (All P) (leb n m) (h, k) (k.0, insert_number-All n l h k.1)

  sort_numbers-All : (l : List ℕ) → All P l → All P (sort_numbers l)
  unfolding sort_numbers
  sort_numbers-All [] h = tt
  sort_numbers-All (n ∷ l) h = insert_number-All n (sort_numbers l) h.0 (sort_numbers-All l h.1)

collect-passing :
    (test : ℕ → Bool) (seen numbers : List ℕ)
    → All (λ n. test n ≡ true) seen
    → All (λ n. test n ≡ true) (collect test seen numbers)
unfolding collect
collect-passing test seen [] h = h
collect-passing test seen (m ∷ numbers) h =
    collect-passing test (if test m && not (is_listed_in m seen) then seen ++ m ∷ [] else seen)
      numbers
      (elim (Bool-cases (test m && not (is_listed_in m seen))) [
        | inl new ↦
            rw new (All-append (λ n. test n ≡ true) seen (m ∷ []) h ((ground (arith, new)), tt))
        | inr old ↦ rw old h
      ])

get_elem?-found :
    {A : Type 0} (i : ℕ) (l : List A) → suc i ≤ length l → (a : A) × (get_elem? l i ≡ some a)
get_elem?-found i [] h = absurd (omega (arith, h))
get_elem?-found zero (a ∷ l) h = (a, refl)
get_elem?-found (suc i) (a ∷ l) h = get_elem?-found i l (omega (arith, h))

is_valid_marker-le : (count n : ℕ) → is_valid_marker count n ≡ true → suc (n - 1) ≤ count
is_valid_marker-le count n h = ground (arith, h)

abbrev pub is_cited : ℕ → List Citation → Bool
is_cited n citations = any (λ (c : Citation). c.marker == n) citations

citations_of-cited :
    (chunks : List RetrievedChunk) (n : ℕ) (numbers : List ℕ)
    → All (λ m. is_valid_marker (length chunks) m ≡ true) numbers
    → is_cited n (citations_of chunks numbers) ≡ is_listed_in n numbers
unfolding citations_of
citations_of-cited chunks n [] h = refl
citations_of-cited chunks n (m ∷ numbers) h =
    let (c, found) = get_elem?-found (m - 1) chunks (is_valid_marker-le (length chunks) m h.0) in
    cited_if_found (get_elem? chunks (m - 1)) c found
      (ap (λ b. (m == n) || b) (citations_of-cited chunks n numbers h.1))
  where
    cited_if_found :
        (o : Option RetrievedChunk) (c : RetrievedChunk) {b : Bool}
        → o ≡ some c
        → ((m == n) || is_cited n (citations_of chunks numbers)) ≡ b
        → is_cited n (elim o as (λ _. List Citation) [
          | none ↦ citations_of chunks numbers
          | some c ↦ cite m c ∷ citations_of chunks numbers
        ])
          ≡ b
    cited_if_found none c e h = absurd (cc e)
    cited_if_found (some d) c e h = h

module _ (w : Writing) where
  -- For every number, an answer has a citation with it exactly when the text of the model has a
  -- marker with it and it is the number of a passage that was sent, and it is reported as invalid
  -- exactly when the text has a marker with it and there is no such passage.
  pub verify_citations_exact :
      (text : Text) (chunks : List RetrievedChunk) (n : ℕ)
      → let verified = verify_citations w text chunks in
        (is_cited n verified.1
          ≡ (is_valid_marker (length chunks) n && is_listed_in n (numbers_in w text)))
        × (is_listed_in n verified.2
            ≡ (not (is_valid_marker (length chunks) n) && is_listed_in n (numbers_in w text)))
  unfolding verify_citations
  verify_citations_exact text chunks n =
      let valid = is_valid_marker (length chunks) in
      let seen = collect valid [] (numbers_in w text) in
      (
        citations_of-cited chunks n (sort_numbers seen) (
              sort_numbers-All (λ m. valid m ≡ true) seen
                (collect-passing valid [] (numbers_in w text) tt))
            ∙ sort_numbers-listed n seen
            ∙ collect-listed valid n [] (numbers_in w text),
        sort_numbers-listed n (collect (λ m. not (valid m)) [] (numbers_in w text))
            ∙ collect-listed (λ m. not (valid m)) n [] (numbers_in w text),
      )
