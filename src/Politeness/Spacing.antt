-- ===== src/Politeness/Spacing.antt =====
-- The script keeps two granted leases of a key apart by the delay of the first.
use tech_atlas.Prelude.{
  ℕ, ◌+◌, ◌-◌, ◌<◌, ◌≡◌, refl, false, not, ◌==◌, ◌&&◌, List, [], ◌∷◌, ltb, find, All, arith,
  Bool-cases, inl, inr,
}
use tech_atlas.Prelude.Text.{Text, eq_text}
use tech_atlas.Prelude.Text.Equality.{eq_text→eq, eq_text_self}
use tech_atlas.Politeness.{Entry, Store, get_value, drop_key, set_value, lease_script}

-- A request of the script.
pub record LeaseRequest : Type 0 where
  pub key : Text
  pub delay : ℕ
  pub now : ℕ

-- The waits that a sequence of requests is told, whoever makes them, and the store it leaves.
unfoldable pub serve : Store → List LeaseRequest → List (LeaseRequest × ℕ) × Store
serve store [] = ([], store)
serve store (r ∷ rest) =
    let answer = lease_script store r.key r.delay r.now in
    let later = serve answer.1 rest in ((r, answer.0) ∷ later.0, later.1)

-- Before `until`, the key's value is `until`.
abbrev pub IsLeased : Text → ℕ → Store → Type 0
IsLeased key until store = (t : ℕ) → t < until → get_value store key t ≡ until

set_value-IsLeased :
    (store : Store) (key : Text) (delay now : ℕ)
    → IsLeased key (now + delay) (set_value store key (now + delay) delay now)
unfolding get_value set_value
set_value-IsLeased store key delay now t early = rw (eq_text_self key) (ground arith)

find-drop_key :
    (key other : Text) (t : ℕ) (store : Store)
    → eq_text other key ≡ false
    → find (λ (e : Entry). eq_text e.key key && ltb t e.expires_at) (drop_key other store)
      ≡ find (λ (e : Entry). eq_text e.key key && ltb t e.expires_at) store
unfolding drop_key
find-drop_key key other t [] h = refl
find-drop_key key other t (e ∷ rest) h = elim (Bool-cases (eq_text e.key other)) [
  | inl dropped ↦
      let same = eq_text→eq e.key other dropped in
      let differs : eq_text e.key key ≡ false = rw same h in
      rw (dropped, differs) (find-drop_key key other t rest h)
  | inr kept ↦ rw (kept, find-drop_key key other t rest h) refl
]

-- A request of another key leaves the value.
set_value-other :
    (store : Store) (key other : Text) (value delay now t : ℕ)
    → eq_text other key ≡ false
    → get_value (set_value store other value delay now) key t ≡ get_value store key t
unfolding get_value set_value
set_value-other store key other value delay now t h = rw (h, find-drop_key key other t store h) refl

lease_script-IsLeased :
    (store : Store) (key : Text) (until : ℕ) (r : LeaseRequest)
    → IsLeased key until store
    → r.now < until
    → IsLeased key until (lease_script store r.key r.delay r.now).1
unfolding lease_script
lease_script-IsLeased store key until r held early t before =
    elim (Bool-cases (ltb r.now (get_value store r.key r.now))) [
      | inl waits ↦ rw waits (held t before)
      | inr granted ↦ elim (Bool-cases (eq_text r.key key)) [
        | inl same ↦
            let equal = eq_text→eq r.key key same in
            absurd (ground (arith, held r.now early, rw equal at granted))
        | inr other ↦
            rw (granted, set_value-other store key r.key (r.now + r.delay) r.delay r.now t other)
              (held t before)
      ]
    ]

-- The answer to a request of the key is the time that is left.
abbrev pub IsToldToWait : Text → ℕ → LeaseRequest × ℕ → Type 0
IsToldToWait key until answer =
    (eq_text answer.0.key key && not (answer.1 == until - answer.0.now)) ≡ false

told :
    (store : Store) (key : Text) (until : ℕ) (r : LeaseRequest)
    → IsLeased key until store
    → r.now < until
    → IsToldToWait key until (r, (lease_script store r.key r.delay r.now).0)
unfolding lease_script
told store key until r held early = elim (Bool-cases (eq_text r.key key)) [
  | inl same ↦
      let equal = eq_text→eq r.key key same in
      let value : get_value store r.key r.now ≡ until = rw equal (held r.now early) in
      rw (same, value) (ground arith)
  | inr other ↦ rw other refl
]

serve-All :
    (key : Text) (until : ℕ) (requests : List LeaseRequest) (store : Store)
    → IsLeased key until store
    → All (λ r. r.now < until) requests
    → All (IsToldToWait key until) (serve store requests).0
unfolding serve
serve-All key until [] store held h = tt
serve-All key until (r ∷ rest) store held h = (
  told store key until r held h.0,
  serve-All key until rest _ (lease_script-IsLeased store key until r held h.0) h.1,
)

-- After a lease of a key is granted, every request of that key that comes before the delay is over
-- is told to wait for exactly what is left of it, whatever requests of other keys come in between.
pub lease_script-serve :
    (store : Store) (key : Text) (delay now : ℕ) (requests : List LeaseRequest)
    → (lease_script store key delay now).0 ≡ 0
    → All (λ r. r.now < now + delay) requests
    → All (IsToldToWait key (now + delay)) (serve (lease_script store key delay now).1 requests).0
unfolding lease_script
lease_script-serve store key delay now requests granted h =
    elim (Bool-cases (ltb now (get_value store key now))) [
      | inl waits ↦ absurd (ground (arith, rw waits at granted))
      | inr free ↦
          rw free
            (serve-All key (now + delay) requests _ (set_value-IsLeased store key delay now) h)
    ]
