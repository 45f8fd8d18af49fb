-- ===== src/Core/Session/Index.antt =====
-- The index of core/store.py's sessions: what adding and removing an id keeps.
use gutencode_test.Prelude.{
  ◌≡◌, ◌≢◌, refl, sym, ◌∙◌, true, false, not, Option, some, List, [], ◌∷◌, ◌++◌, Text, Text-Eq,
  ◌==◌, ==_true, ==_false, ==_refl, Bool-cases, inl, inr, arith, elem, keep,
}
use gutencode_test.Core.Table.{get}
use gutencode_test.Core.Table.Laws.{get-do_self, do_-at}
use gutencode_test.Core.Session.{
  Session, Sessions, or_empty, index_add, index_remove, add_fn, remove_fn,
}

-- The ids in a subject's index.
abbrev pub ids_of : Text → Sessions → List Text
ids_of subject s = or_empty (get subject s.index)

-- Every row's subject has its id in the index.
abbrev pub IsIndexed : Sessions → Type 0
IsIndexed s =
    (sid : Text) (rec : Session)
    → get sid s.sessions ≡ some rec
    → elem sid (ids_of rec.subject s) ≡ true

elem-append : (xs : List Text) (a b : Text) → elem a xs ≡ true → elem a (xs ++ (b ∷ [])) ≡ true
elem-append [] a b e = absurd (cc)
elem-append (x ∷ xs) a b e = ground (arith, elem-append xs a b)

elem-last : (xs : List Text) (a : Text) → elem a (xs ++ (a ∷ [])) ≡ true
elem-last [] a = rw (==_refl a) refl
elem-last (x ∷ xs) a = rw (elem-last xs a) (ground arith)

elem-keep_ne :
    (xs : List Text) (a b : Text)
    → a ≢ b
    → elem a xs ≡ true
    → elem a (keep (λ i. not (i == b)) xs) ≡ true
elem-keep_ne [] a b differ e = e
elem-keep_ne (x ∷ xs) a b differ e = elim (Bool-cases (x == b)) [
  | inr other ↦ rw other (ground (arith, elem-keep_ne xs a b differ))
  | inl gone ↦
      let apart : (x == a) ≡ false = ==_false x a (λ p. differ (sym p ∙ ==_true x b gone)) in
      rw gone (elem-keep_ne xs a b differ (rw apart at e))
]

add_fn-elem :
    (sid a : Text) (o : Option (List Text)) (v : List Text)
    → (add_fn sid o).0 ≡ some v
    → elem a (or_empty o) ≡ true
    → elem a v ≡ true
unfolding add_fn
add_fn-elem sid a o v e held = elim (Bool-cases (elem sid (or_empty o))) [
  | inl there ↦ ground (arith)
  | inr new ↦
      let grown : some (or_empty o ++ (sid ∷ [])) ≡ some v = rw new at e in
      let here : or_empty o ++ (sid ∷ []) ≡ v = cc grown in
      rw (← here) (elem-append (or_empty o) a sid held)
]

add_fn-elem_self :
    (sid : Text) (o : Option (List Text)) → elem sid (or_empty (add_fn sid o).0) ≡ true
unfolding add_fn
add_fn-elem_self sid o = elim (Bool-cases (elem sid (or_empty o))) [
  | inl there ↦ rw there there
  | inr new ↦ rw new (elem-last (or_empty o) sid)
]

remove_fn-elem :
    (sid a : Text) (o : Option (List Text)) (v : List Text)
    → a ≢ sid
    → (remove_fn sid o).0 ≡ some v
    → elem a (or_empty o) ≡ true
    → elem a v ≡ true
unfolding remove_fn
remove_fn-elem sid a o v differ e held =
    let here : keep (λ i. not (i == sid)) (or_empty o) ≡ v = cc e in
    rw (← here) (elem-keep_ne (or_empty o) a sid differ held)

module _ (subject sid : Text) (s : Sessions) where
  pub ids_of-index_add :
      (subject' sid' : Text)
      → elem sid' (ids_of subject' s) ≡ true
      → elem sid' (ids_of subject' (index_add subject sid s)) ≡ true
  unfolding index_add
  ids_of-index_add subject' sid' e =
      do_-at (λ o. elem sid' (or_empty o) ≡ true) subject' subject (add_fn sid) s.index
        (λ v w. add_fn-elem sid sid' (get subject' s.index) v w e) e

  pub ids_of-index_add_self : elem sid (ids_of subject (index_add subject sid s)) ≡ true
  unfolding index_add add_fn
  ids_of-index_add_self =
      rw (get-do_self subject (add_fn sid) s.index) (add_fn-elem_self sid (get subject s.index))

  pub ids_of-index_remove :
      (subject' sid' : Text)
      → sid' ≢ sid
      → elem sid' (ids_of subject' s) ≡ true
      → elem sid' (ids_of subject' (index_remove subject sid s)) ≡ true
  unfolding index_remove
  ids_of-index_remove subject' sid' differ e =
      do_-at (λ o. elem sid' (or_empty o) ≡ true) subject' subject (remove_fn sid) s.index
        (λ v w. remove_fn-elem sid sid' (get subject' s.index) v differ w e) e
