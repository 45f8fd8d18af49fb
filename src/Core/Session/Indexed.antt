-- ===== src/Core/Session/Indexed.antt =====
-- Every stored session is in its subject's index, so revoking all of them reaches every one.
use gutencode_test.Prelude.{
  ℕ, ◌≡◌, ◌≢◌, refl, sym, ap, ◌∙◌, false, Option, none, some, List, [], ◌∷◌, Text, Text-Eq, ◌==◌,
  ==_true, ==_false, ==_refl, Bool-cases, Option-cases, inl, inr, arith, elem, if◌then◌else◌,
}
use gutencode_test.Core.Table.{Table, get, put, delete, do_}
use gutencode_test.Core.Table.Laws.{AllAt, AllAt-do_, get-put, get-delete, get-do_ne}
use gutencode_test.Parts.Digest.{Hash}
use gutencode_test.Core.Session.{
  Knobs, Session, Sessions, is_empty, split_token, index_add, index_remove, new_session,
  session_create, extend_fn, resolve_row, is_live, is_due, is_test_token, session_resolve,
  RotateOut, rotate_fn, end_if_reused, session_rotate, revoke_row, session_revoke, delete_all,
  session_revoke_all, clear_fn,
}
use gutencode_test.Core.Session.Index.{
  IsIndexed, ids_of, ids_of-index_add, ids_of-index_add_self, ids_of-index_remove,
}

-- Each row of one table is a row of another, for the same subject.
abbrev Within : Table Text Session → Table Text Session → Type 0
Within t' t =
    AllAt (λ sid rec'. (rec : Session) × (get sid t ≡ some rec) × (rec.subject ≡ rec'.subject)) t'

Within-IsIndexed :
    (s : Sessions) (t' : Table Text Session)
    → Within t' s.sessions
    → IsIndexed s
    → IsIndexed (record s { sessions = t' })
Within-IsIndexed s t' within indexed sid rec' held =
    let (rec, was, same) = within sid rec' held in rw (← same) (indexed sid rec was)

Within-do_ :
    {R : Type 0} (sid : Text) (fn : Option Session → Option Session × R) (t : Table Text Session)
    → ((v : Session)
        → (fn (get sid t)).0 ≡ some v
        → (rec : Session) × (get sid t ≡ some rec) × (rec.subject ≡ v.subject))
    → Within (do_ sid fn t).1 t
Within-do_ sid fn t keeps =
    AllAt-do_ (λ k v. (rec : Session) × (get k t ≡ some rec) × (rec.subject ≡ v.subject)) sid fn t
      keeps (λ k v held. (v, held, refl))

get-delete-some :
    (sid sid' : Text) (rec : Session) (t : Table Text Session)
    → get sid' (delete sid t) ≡ some rec
    → (sid' ≢ sid) × (get sid' t ≡ some rec)
get-delete-some sid sid' rec t held =
    let e : (if sid == sid' then none else get sid' t) ≡ some rec =
      sym (get-delete sid' sid t) ∙ held in
    elim (Bool-cases (sid == sid')) [
      | inl gone ↦ absurd (cc (rw gone at e))
      | inr other ↦ (λ p. cc (rw (p, ==_refl sid) at other), rw other at e)
    ]

dropped : Text → Sessions → Sessions
dropped sid s = record s { sessions = delete sid s.sessions }

dropped-IsIndexed : (sid : Text) (s : Sessions) → IsIndexed s → IsIndexed (dropped sid s)
unfolding dropped
dropped-IsIndexed sid s indexed sid' rec held =
    let (differ, was) = get-delete-some sid sid' rec s.sessions held in indexed sid' rec was

removed-IsIndexed :
    (sid subject : Text) (s : Sessions)
    → IsIndexed s
    → IsIndexed (index_remove subject sid (dropped sid s))
removed-IsIndexed sid subject s indexed sid' rec held =
    let (differ, was) =
      get-delete-some sid sid' rec s.sessions (unfold index_remove dropped in held) in
    ids_of-index_remove subject sid (dropped sid s) rec.subject sid' differ
      (unfold dropped in indexed sid' rec was)

revoke_row-IsIndexed : (sid : Text) (s : Sessions) → IsIndexed s → IsIndexed (revoke_row sid s)
unfolding revoke_row
revoke_row-IsIndexed sid s indexed = elim (Option-cases (get sid s.sessions)) [
  | inl gone ↦ rw (revoke_row, gone) (unfold dropped in dropped-IsIndexed sid s indexed)
  | inr (rec, held) ↦ elim (Bool-cases (is_empty rec.subject)) [
    | inl anonymous ↦
        rw (revoke_row, held, anonymous) (unfold dropped in dropped-IsIndexed sid s indexed)
    | inr named ↦
        rw (revoke_row, held, named) (unfold dropped in removed-IsIndexed sid rec.subject s indexed)
  ]
]

end_if_reused-IsIndexed :
    (sid : Text) (out : RotateOut) (s : Sessions)
    → IsIndexed s
    → IsIndexed (end_if_reused sid out s)
unfolding end_if_reused
end_if_reused-IsIndexed sid out s indexed = elim (Bool-cases out.reuse) [
  | inr fine ↦ rw fine indexed
  | inl reused ↦ elim (Bool-cases (is_empty out.subject)) [
    | inl anonymous ↦ rw (reused, anonymous) (unfold dropped in dropped-IsIndexed sid s indexed)
    | inr named ↦ rw (reused, named) (unfold dropped in removed-IsIndexed sid out.subject s indexed)
  ]
]

module _ (h : Hash) (k : Knobs) where
  pub session_create-IsIndexed :
      (sid secret subject : Text) (now : ℕ) (s : Sessions)
      → IsIndexed s
      → IsIndexed (session_create h k sid secret subject now s).1
  unfolding session_create
  session_create-IsIndexed sid secret subject now s indexed sid' rec held =
      let s' = record s { sessions = put sid (new_session h k subject secret now) s.sessions } in
      let e : (if sid == sid'
            then some (new_session h k subject secret now)
            else get sid' s.sessions)
          ≡ some rec =
        sym (get-put sid' sid (new_session h k subject secret now) s.sessions)
        ∙ (unfold index_add in held) in
      elim (Bool-cases (sid == sid')) [
        | inl same ↦
            let mine : some (new_session h k subject secret now) ≡ some rec = rw same at e in
            let own : subject ≡ rec.subject =
              (let row : new_session h k subject secret now ≡ rec = cc mine in
                unfold new_session in ap (λ (r : Session). r.subject) row) in
            rw (← own, ← ==_true sid sid' same) (ids_of-index_add_self subject sid s')
        | inr other ↦
            ids_of-index_add subject sid s' rec.subject sid' (indexed sid' rec (rw other at e))
      ]

  extend_fn-subject :
      (now : ℕ) (o : Option Session) (v : Session)
      → (extend_fn h k now o).0 ≡ some v
      → (rec : Session) × (o ≡ some rec) × (rec.subject ≡ v.subject)
  unfolding extend_fn
  extend_fn-subject now none v e = absurd (cc)
  extend_fn-subject now (some cur) v e = (cur, refl, ground arith)

  rotate_fn-subject :
      (sid secret new_secret : Text) (now : ℕ) (o : Option Session) (v : Session)
      → (rotate_fn h k sid secret new_secret now o).0 ≡ some v
      → (rec : Session) × (o ≡ some rec) × (rec.subject ≡ v.subject)
  unfolding rotate_fn
  rotate_fn-subject sid secret new_secret now none v e = absurd (cc)
  rotate_fn-subject sid secret new_secret now (some cur) v e = (cur, refl, ground arith)

  resolve_row-IsIndexed :
      (sid secret : Text) (now : ℕ) (s : Sessions)
      → IsIndexed s
      → IsIndexed (resolve_row h k sid secret now s).1
  unfolding resolve_row
  resolve_row-IsIndexed sid secret now s indexed = elim (Option-cases (get sid s.sessions)) [
    | inl gone ↦ rw (resolve_row, gone) indexed
    | inr (rec, held) ↦ elim (Bool-cases (is_live h k now secret rec)) [
      | inr refused ↦ rw (resolve_row, held, refused) indexed
      | inl live ↦ elim (Bool-cases (is_due h k now rec)) [
        | inr fresh ↦ rw (resolve_row, held, live, fresh) indexed
        | inl due ↦
            rw (resolve_row, held, live, due)
              (Within-IsIndexed s (do_ sid (extend_fn h k now) s.sessions).1
                (Within-do_ sid (extend_fn h k now) s.sessions
                  (extend_fn-subject now (get sid s.sessions)))
                indexed)
      ]
    ]
  ]

  pub resolve-IsIndexed :
      (token : Text) (now : ℕ) (s : Sessions)
      → IsIndexed s
      → IsIndexed (session_resolve h k token now s).1
  unfolding session_resolve
  resolve-IsIndexed token now s indexed = elim (Bool-cases (is_test_token h k token)) [
    | inl test ↦ rw (session_resolve, test) indexed
    | inr real ↦ elim (Option-cases (split_token token)) [
      | inl malformed ↦ rw (session_resolve, real, malformed) indexed
      | inr ((sid, secret), parts) ↦
          rw (session_resolve, real, parts) (resolve_row-IsIndexed sid secret now s indexed)
    ]
  ]

  pub rotate-IsIndexed :
      (token new_secret : Text) (now : ℕ) (s : Sessions)
      → IsIndexed s
      → IsIndexed (session_rotate h k token new_secret now s).1
  unfolding session_rotate
  rotate-IsIndexed token new_secret now s indexed = elim (Option-cases (split_token token)) [
    | inl malformed ↦ rw (session_rotate, malformed) indexed
    | inr ((sid, secret), parts) ↦
        let fn = rotate_fn h k sid secret new_secret now in
        rw (session_rotate, parts)
          (end_if_reused-IsIndexed sid (do_ sid fn s.sessions).0
            (record s { sessions = (do_ sid fn s.sessions).1 })
            (Within-IsIndexed s (do_ sid fn s.sessions).1
              (Within-do_ sid fn s.sessions
                (rotate_fn-subject sid secret new_secret now (get sid s.sessions)))
              indexed))
  ]

pub revoke-IsIndexed :
    (token : Text) (s : Sessions) → IsIndexed s → IsIndexed (session_revoke token s)
unfolding session_revoke
revoke-IsIndexed token s indexed = elim (Option-cases (split_token token)) [
  | inl malformed ↦ rw (session_revoke, malformed) indexed
  | inr ((sid, secret), parts) ↦ rw (session_revoke, parts) (revoke_row-IsIndexed sid s indexed)
]

-- What is left after a list of deletions.
get-delete_all :
    (ids : List Text) (t : Table Text Session) (sid : Text) (rec : Session)
    → get sid (delete_all ids t) ≡ some rec
    → (elem sid ids ≡ false) × (get sid t ≡ some rec)
unfolding delete_all
get-delete_all [] t sid rec held = (refl, held)
get-delete_all (x ∷ ids) t sid rec held =
    let (later, before) = get-delete_all ids (delete x t) sid rec held in
    let (differ, was) = get-delete-some x sid rec t before in
    (rw (later, ==_false x sid (λ p. differ (sym p))) refl, was)

pub revoke_all-gone :
    (subject : Text) (s : Sessions)
    → IsIndexed s
    → (sid : Text) (rec : Session) → get sid (session_revoke_all subject s).sessions ≡ some rec
    → (rec.subject ≢ subject) × (get sid s.sessions ≡ some rec)
unfolding session_revoke_all do_ clear_fn
revoke_all-gone subject s indexed sid rec held =
    let (spared, was) = get-delete_all (ids_of subject s) s.sessions sid rec held in
    (λ mine. cc (rw mine at (indexed sid rec was), spared), was)

pub revoke_all-IsIndexed :
    (subject : Text) (s : Sessions) → IsIndexed s → IsIndexed (session_revoke_all subject s)
revoke_all-IsIndexed subject s indexed sid rec held =
    let (other, was) = revoke_all-gone subject s indexed sid rec held in
    let stays : get rec.subject (session_revoke_all subject s).index ≡ get rec.subject s.index =
      unfold session_revoke_all in
      get-do_ne rec.subject subject clear_fn s.index (λ e. other (sym e)) in
    rw stays (indexed sid rec was)
