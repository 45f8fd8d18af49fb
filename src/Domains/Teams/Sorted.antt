-- ===== src/Domains/Teams/Sorted.antt =====
-- What the sorted lists of members hold: the roles of each handle, whatever the order.
use gutencode_test.Prelude.{
  ◌≡◌, refl, ◌∙◌, false, List, [], ◌∷◌, ◌++◌, Text, Text-Eq, ◌==◌, ==_true, text_lt, Bool-cases,
  inl, inr, arith, if◌then◌else◌,
}
use gutencode_test.Domains.Teams.{TeamMember, insert_member, sort_members, without, upsert}

-- The roles that the rows of a handle name: one for each row.
unfoldable pub roles_of : Text → List TeamMember → List Text
roles_of h [] = []
roles_of h (m ∷ ms) = let rest = roles_of h ms in if m.handle == h then m.role ∷ rest else rest

text_lt_irrefl : (s : Text) → text_lt s s ≡ false
unfolding text_lt
text_lt_irrefl [] = refl
text_lt_irrefl (x ∷ xs) = ground (arith, text_lt_irrefl xs)

roles_of-insert :
    (h : Text) (m : TeamMember) (ms : List TeamMember)
    → roles_of h (insert_member m ms) ≡ roles_of h (m ∷ ms)
unfolding roles_of insert_member
roles_of-insert h m [] = refl
roles_of-insert h m (n ∷ ns) = elim (Bool-cases (text_lt n.handle m.handle)) [
  | inr before ↦ rw before
  | inl after ↦
      rw (after, roles_of-insert h m ns)
        (elim (Bool-cases (n.handle == h)) [
          | inr other ↦ rw other
          | inl here ↦ elim (Bool-cases (m.handle == h)) [
            | inr other ↦ rw other
            | inl both ↦
                let n_at = ==_true n.handle h here in
                let m_at = ==_true m.handle h both in
                absurd (cc (rw (n_at, m_at) at after, text_lt_irrefl h))
          ]
        ])
]

pub roles_of-sort : (h : Text) (ms : List TeamMember) → roles_of h (sort_members ms) ≡ roles_of h ms
unfolding sort_members roles_of
roles_of-sort h [] = refl
roles_of-sort h (m ∷ ms) = roles_of-insert h m (sort_members ms) ∙ (rw (roles_of-sort h ms))

-- A handle's rows are dropped, those of the others stay.
pub roles_of-without :
    (h handle : Text) (ms : List TeamMember)
    → roles_of h (without handle ms) ≡ (if handle == h then [] else roles_of h ms)
unfolding roles_of
roles_of-without h handle [] = ground arith
roles_of-without h handle (m ∷ ms) = ground (
  arith,
  roles_of-without h handle ms,
  Text-Eq.beq_iff m.handle handle,
  Text-Eq.beq_iff m.handle h,
  Text-Eq.beq_iff handle h,
)

roles_of-append :
    (h : Text) (xs ys : List TeamMember) → roles_of h (xs ++ ys) ≡ roles_of h xs ++ roles_of h ys
unfolding roles_of
roles_of-append h [] ys = refl
roles_of-append h (x ∷ xs) ys = elim (Bool-cases (x.handle == h)) [
  | inl here ↦ rw (here, roles_of-append h xs ys)
  | inr other ↦ rw (other, roles_of-append h xs ys)
]

append-nil : (xs : List Text) → xs ++ [] ≡ xs
append-nil [] = refl
append-nil (x ∷ xs) = rw (append-nil xs)

-- One row more for its own handle, at the end.
roles_of-added :
    (h handle role : Text) (ms : List TeamMember)
    → (if handle == h then [] else roles_of h ms)
        ++ roles_of h (record { handle = handle; role = role } ∷ [])
      ≡ (if handle == h then role ∷ [] else roles_of h ms)
unfolding roles_of
roles_of-added h handle role ms = elim (Bool-cases (handle == h)) [
  | inl here ↦ rw here
  | inr other ↦ rw other (append-nil (roles_of h ms))
]

pub roles_of-upsert :
    (h handle role : Text) (ms : List TeamMember)
    → roles_of h (upsert handle role ms) ≡ (if handle == h then role ∷ [] else roles_of h ms)
unfolding upsert
roles_of-upsert h handle role ms =
    roles_of-sort h _
    ∙ roles_of-append h (without handle ms) _
    ∙ (rw (roles_of-without h handle ms) (roles_of-added h handle role ms))
