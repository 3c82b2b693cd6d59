-- ===== src/Retrieval/Query.antt =====
-- `lexical_query` of src/modules/retrieval/lexical_query.py. A text is the list of its code points.
use a_pag_ai_knowledge_base.Prelude.{
  String, Bool, true, false, not, ◌&&◌, List, [], ◌∷◌, ◌++◌, any, length, Text, codes, text_eq, ltb,
  ◌==◌, if◌then◌else◌,
}
use a_pag_ai_knowledge_base.Retrieval.{Engine}

abbrev stopwords : List String
stopwords =
    "a" ∷ "an" ∷ "the" ∷ "this" ∷ "that" ∷ "these" ∷ "those" ∷ "is" ∷ "are" ∷ "was" ∷ "were" ∷ "be"
    ∷ "been" ∷ "being" ∷ "am" ∷ "do" ∷ "does" ∷ "did" ∷ "done" ∷ "have" ∷ "has" ∷ "had" ∷ "having"
    ∷ "what" ∷ "which" ∷ "who" ∷ "whom" ∷ "whose" ∷ "when" ∷ "where" ∷ "why" ∷ "how" ∷ "of" ∷ "in"
    ∷ "on" ∷ "at" ∷ "to" ∷ "for" ∷ "from" ∷ "by" ∷ "with" ∷ "within" ∷ "into" ∷ "onto" ∷ "about"
    ∷ "as" ∷ "and" ∷ "or" ∷ "but" ∷ "nor" ∷ "so" ∷ "then" ∷ "than" ∷ "if" ∷ "else" ∷ "while"
    ∷ "during" ∷ "it" ∷ "its" ∷ "they" ∷ "them" ∷ "their" ∷ "there" ∷ "here" ∷ "i" ∷ "me" ∷ "my"
    ∷ "we" ∷ "us" ∷ "our" ∷ "you" ∷ "your" ∷ "he" ∷ "she" ∷ "his" ∷ "her" ∷ "can" ∷ "could"
    ∷ "shall" ∷ "should" ∷ "will" ∷ "would" ∷ "may" ∷ "might" ∷ "must" ∷ "any" ∷ "some" ∷ "all"
    ∷ "each" ∷ "both" ∷ "few" ∷ "more" ∷ "most" ∷ "other" ∷ "such" ∷ "not" ∷ "no" ∷ "only" ∷ "own"
    ∷ "same" ∷ "please" ∷ "tell" ∷ "show" ∷ "give" ∷ "list" ∷ "explain" ∷ "describe" ∷ "summarise"
    ∷ "summarize" ∷ []

abbrev pub is_in : Text → List String → Bool
is_in word words = any (λ w. text_eq word (codes w)) words

abbrev join_words : List Text → Text
join_words [] = []
join_words (w ∷ []) = w
join_words (w ∷ x ∷ words) = w ++ 32 ∷ join_words (x ∷ words)

module _ {V : Type 0} (e : Engine V) where
  -- A word that is kept: a label of one capital, or no stopword.
  abbrev is_term : Text → Bool
  is_term [] = false
  is_term (c ∷ cs) =
      if length (c ∷ cs) == 1 && e.is_upper (c ∷ cs)
      then true
      else not (is_in (e.lower (c ∷ cs)) stopwords)

  unfoldable pub terms_of : List Text → List Text
  terms_of [] = []
  terms_of (raw ∷ words) =
      let rest = terms_of words in
      if is_term (e.trim_edges raw) then e.trim_edges raw ∷ rest else rest

  unfoldable pub lexical_query : Text → Text
  unfolding terms_of
  lexical_query [] = []
  lexical_query (c ∷ question) =
      let kept = terms_of (e.split (c ∷ question)) in
      if ltb (length kept) 2 then c ∷ question else join_words kept
