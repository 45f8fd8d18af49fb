-- ===== src/Domains/FeatureFlags/Ramp.antt =====
-- A rollout that is only raised admits and never drops a subject.
use gutencode_test.Prelude.{
  ℕ, ◌≤◌, ◌≡◌, ◌⊎◌, refl, sym, ap, ◌∙◌, Bool, true, Option, none, some, List, [], ◌∷◌, Text,
  Text-Eq, ◌==◌, ==_true, ==_refl, ◌&&◌, ltb, All, Bool-cases, Option-cases, inl, inr, arith,
}
use gutencode_test.Core.Exec.{Result, ok, pure, ◌>>=◌}
use gutencode_test.Core.Table.{get, put, do_}
use gutencode_test.Core.Table.Laws.{AllAt, AllAt-put, AllAt-do_, do_-at, get-put_ne, get-put_self}
use gutencode_test.Core.Access.{is_admin}
use gutencode_test.Parts.Digest.{Hash}
use gutencode_test.Parts.WellFormed.{is_well_formed}
use gutencode_test.Domains.FeatureFlags
use gutencode_test.Domains.FeatureFlags.{
  Flag, Flags, Call, is_rollout, bucket, create_fn, get_flag, put_rollout, evaluate,
}

pub data Request : Type 0 where
  create : Text → ℕ → Request
  set_rollout : Text → ℕ → Request

unfoldable pub step : Call → Request → Flags → Flags
step c (create key rollout) t = (FeatureFlags.create c key rollout t).1
step c (set_rollout key rollout) t = (FeatureFlags.set_rollout c key rollout t).1

unfoldable pub serve : List (Call × Request) → Flags → Flags
serve [] t = t
serve ((c, r) ∷ rest) t = serve rest (step c r t)

-- No admin lowers the flag's rollout below the bound.
abbrev pub IsRaise : ℕ → Text → Call × Request → Type 0
IsRaise bound key (c, create k rollout) = Unit
IsRaise bound key (c, set_rollout k rollout) =
    k ≡ key → is_admin c.seam c.roles c.caller ≡ true → bound ≤ rollout

create_lem :
    (c : Call) (key : Text) (rollout : ℕ) (t : Flags)
    → ((FeatureFlags.create c key rollout t).1 ≡ t)
      ⊎ ((FeatureFlags.create c key rollout t).1
          ≡ (do_ key (create_fn (record { key = key; rollout = rollout })) t).1)
unfolding FeatureFlags.create ◌>>=◌
create_lem c key rollout t = elim (Bool-cases (is_admin c.seam c.roles c.caller)) [
  | inr other ↦ inl (rw other)
  | inl admin ↦ elim (Bool-cases (is_well_formed key && is_rollout rollout)) [
    | inr bad ↦ inl (rw (admin, bad))
    | inl good ↦
        elim (Bool-cases (do_ key (create_fn (record { key = key; rollout = rollout })) t).0) [
          | inl made ↦ inr (rw (admin, good, made))
          | inr taken ↦ inr (rw (admin, good, taken))
        ]
  ]
]

set_rollout_lem :
    (c : Call) (key : Text) (rollout : ℕ) (t : Flags)
    → ((FeatureFlags.set_rollout c key rollout t).1 ≡ t)
      ⊎ ((flag : Flag) × (get key t ≡ some flag)
          × (is_admin c.seam c.roles c.caller ≡ true)
          × ((FeatureFlags.set_rollout c key rollout t).1 ≡ (put_rollout rollout flag t).1))
unfolding FeatureFlags.set_rollout get_flag ◌>>=◌
set_rollout_lem c key rollout t = elim (Bool-cases (is_admin c.seam c.roles c.caller)) [
  | inr other ↦ inl (rw other)
  | inl admin ↦ elim (Bool-cases (is_rollout rollout)) [
    | inr bad ↦ inl (rw (admin, bad))
    | inl good ↦ elim (Bool-cases (is_well_formed key)) [
      | inr odd ↦ inl (rw (admin, good, odd))
      | inl even ↦ elim (Option-cases (get key t)) [
        | inl missing ↦ inl (rw (admin, good, even, missing))
        | inr (flag, held) ↦ inr (flag, held, admin, rw (admin, good, even, held))
      ]
    ]
  ]
]

-- Every flag is under its own key.
abbrev AllKeyed : Flags → Type 0
AllKeyed t = AllAt (λ k (f : Flag). f.key ≡ k) t

create_fn-keyed :
    (rec : Flag) (old : Option Flag) (v : Flag) → (create_fn rec old).0 ≡ some v → v.key ≡ rec.key
create_fn-keyed rec none v e = let same : rec ≡ v = cc e in ap (λ (f : Flag). f.key) (sym same)
create_fn-keyed rec (some cur) v e = absurd (cc e)

step-AllKeyed : (c : Call) (r : Request) (t : Flags) → AllKeyed t → AllKeyed (step c r t)
unfolding step
step-AllKeyed c (create key rollout) t p = elim (create_lem c key rollout t) [
  | inl same ↦ rw same p
  | inr made ↦ rw made (
      AllAt-do_ (λ k (f : Flag). f.key ≡ k) key _ t
        (λ v next. create_fn-keyed (record { key = key; rollout = rollout }) (get key t) v next) p)
]
step-AllKeyed c (set_rollout key rollout) t p = elim (set_rollout_lem c key rollout t) [
  | inl same ↦ rw same p
  | inr (flag, held, admin, made) ↦ rw made (
      unfold put_rollout in
      AllAt-put (λ k (f : Flag). f.key ≡ k) flag.key (record flag { rollout = rollout }) t refl p)
]

serve-AllKeyed :
    (history : List (Call × Request)) (t : Flags) → AllKeyed t → AllKeyed (serve history t)
unfolding serve
serve-AllKeyed [] t p = p
serve-AllKeyed ((c, r) ∷ rest) t p = serve-AllKeyed rest (step c r t) (step-AllKeyed c r t p)

-- The flag is there with at least this rollout.
abbrev Reaches : ℕ → Text → Option Flag → Type 0
Reaches bound key row =
    (flag : Flag) × (row ≡ some flag) × (flag.key ≡ key) × (bound ≤ flag.rollout)

create_fn-Reaches :
    (bound : ℕ) (key : Text) (rec : Flag) (old : Option Flag) (v : Flag)
    → Reaches bound key old
    → (create_fn rec old).0 ≡ some v
    → Reaches bound key (some v)
create_fn-Reaches bound key rec none v (flag, held, at_key, high) e = absurd (cc held)
create_fn-Reaches bound key rec (some cur) v p e = absurd (cc e)

step-Reaches :
    (bound : ℕ) (key : Text) (c : Call) (r : Request) (t : Flags)
    → IsRaise bound key (c, r)
    → AllKeyed t
    → Reaches bound key (get key t)
    → Reaches bound key (get key (step c r t))
unfolding step
step-Reaches bound key c (create k rollout) t up keyed p = elim (create_lem c k rollout t) [
  | inl same ↦ rw same p
  | inr made ↦ rw made (
      do_-at (Reaches bound key) key k _ t
        (λ v next. create_fn-Reaches bound key _ (get key t) v p next) p)
]
step-Reaches bound key c (set_rollout k rollout) t up keyed p =
    elim (set_rollout_lem c k rollout t) [
      | inl same ↦ rw same p
      | inr (flag, held, admin, made) ↦ rw made (
          unfold put_rollout in
          elim (Bool-cases (k == key)) [
            | inl here ↦
                let at_key = keyed k flag held ∙ ==_true k key here in
                (
                  record flag { rollout = rollout },
                  ap (λ j. get key (put j (record flag { rollout = rollout }) t)) at_key
                      ∙ get-put_self key (record flag { rollout = rollout }) t,
                  at_key,
                  up (==_true k key here) admin,
                )
            | inr other ↦
                let (now, there, at_key, high) = p in
                (
                  now,
                  get-put_ne key flag.key _ t
                        (λ same. cc (rw (sym (keyed k flag held) ∙ same) at other, ==_refl key))
                      ∙ there,
                  at_key,
                  high,
                )
          ])
    ]

serve-Reaches :
    (bound : ℕ) (key : Text) (history : List (Call × Request)) (t : Flags)
    → All (IsRaise bound key) history
    → AllKeyed t
    → Reaches bound key (get key t)
    → Reaches bound key (get key (serve history t))
unfolding serve
serve-Reaches bound key [] t up keyed p = p
serve-Reaches bound key ((c, r) ∷ rest) t up keyed p =
    serve-Reaches bound key rest (step c r t) up.1 (step-AllKeyed c r t keyed)
      (step-Reaches bound key c r t up.0 keyed p)

abbrev pub Enabled : Text → Text → Result (Text × Text × Bool)
Enabled key subject = ok (key, subject, true)

evaluate_lem :
    (h : Hash) (key subject : Text) (t : Flags) (flag : Flag)
    → is_well_formed key ≡ true
    → is_well_formed subject ≡ true
    → get key t ≡ some flag
    → evaluate h key subject t
      ≡ (ok (flag.key, subject, ltb (bucket h flag.key subject) flag.rollout), t)
unfolding evaluate get_flag pure ◌>>=◌
evaluate_lem h key subject t flag good well held = rw (good, held, well)

evaluate-ok :
    (h : Hash) (key subject : Text) (t : Flags) (flag : Flag) {r : Text × Text × Bool}
    → get key t ≡ some flag
    → (evaluate h key subject t).0 ≡ ok r
    → (is_well_formed key ≡ true) × (is_well_formed subject ≡ true)
unfolding evaluate get_flag pure ◌>>=◌
evaluate-ok h key subject t flag held e = elim (Bool-cases (is_well_formed key)) [
  | inr odd ↦ absurd (cc (rw odd at e))
  | inl good ↦ elim (Bool-cases (is_well_formed subject)) [
    | inr odd ↦ absurd (cc (rw (good, held, odd) at e))
    | inl well ↦ (good, well)
  ]
]

-- After any history of requests from an empty store, a subject for which a flag is enabled stays so
-- through any further requests of any callers in which no admin sets the flag's rollout below the one it
-- had: the evaluation replies the same.
pub ramp_only_admits :
    (h : Hash) (before later : List (Call × Request)) (key subject : Text) (flag : Flag)
    → get key (serve before []) ≡ some flag
    → (evaluate h key subject (serve before [])).0 ≡ Enabled key subject
    → All (IsRaise flag.rollout key) later
    → (evaluate h key subject (serve later (serve before []))).0 ≡ Enabled key subject
ramp_only_admits h before later key subject flag held on raises =
    let t = serve before [] in
    let keyed = serve-AllKeyed before [] (λ k f found. absurd (unfold get in cc found)) in
    let at_key : flag.key ≡ key = keyed key flag held in
    let (good, well) = evaluate-ok h key subject t flag held on in
    let (now, there, same, high) =
      serve-Reaches flag.rollout key later t raises keyed (flag, held, at_key, omega arith) in
    let first : Enabled key subject
        ≡ ok (flag.key, subject, ltb (bucket h flag.key subject) flag.rollout) =
      sym on ∙ ap (λ x. x.0) (evaluate_lem h key subject t flag good well held) in
    let shown : ltb (bucket h flag.key subject) flag.rollout ≡ true = cc first in
    let under : ltb (bucket h key subject) flag.rollout ≡ true = rw at_key at shown in
    let still : ltb (bucket h key subject) now.rollout ≡ true = ground (arith, under, high) in
    ap (λ x. x.0) (evaluate_lem h key subject (serve later t) now good well there)
    ∙ rw (same, still) refl
