-- ===== src/Env/Ids.antt =====
-- The identifiers that `env_alloc` of kern/env.c gives out, and how `envid2env` reads them.
use arch.Base.{
  ℕ, ◌+◌, ◌-◌, ◌*◌, ◌/◌, ◌%◌, ◌^◌, ◌<◌, ◌≡◌, refl, ◌≢◌, Bool, true, false, ◌&&◌, ◌||◌, none, some,
  arith, bit_or,
}
use arch.Base.{◌==◌, if◌then◌else◌, not, shl, bit_or-shl, Bool-cases, ◌⊎◌, inl, inr, ap, ◌∙◌, subst}
use native.Mathlib.Decide.{ℕ_discrete}
use arch.Kern.{Kern, ok}
use arch.Kern.Layout.{u32, nenv, is_neg, env_free_status, e_bad_env}
use arch.Env.Table.{envx, envid2env, may_manage}
use arch.Env.Alloc.{next_env_id}

-- `generation | index`
bit_or-generation : (g e : ℕ) → e < nenv → bit_or (g * 1024) e ≡ g * 1024 + e
bit_or-generation g e lt = rw (← ten) (bit_or-shl 10 g e (omega arith))
  where
    ten : shl g 10 ≡ g * 1024
    ten = omega arith

-- The generation behind `env_id`: the next one, or the first one where that is negative.
abbrev next_generation : ℕ → ℕ
next_generation env_id =
    if is_neg ((env_id + 4096) / 1024 * 1024) then 4 else (env_id + 4096) / 1024

next_env_id-eq :
    (env_id e : ℕ)
    → env_id < 2 ^ 31
    → e < nenv
    → next_env_id env_id e ≡ next_generation env_id * 1024 + e
unfolding next_env_id
next_env_id-eq env_id e small lt =
    ground (arith, bit_or-generation 4 e lt, bit_or-generation ((env_id + 4096) / 1024) e lt, sum)
  where
    sum : (env_id + 2 ^ 12) % u32 - (env_id + 2 ^ 12) % u32 % nenv ≡ (env_id + 4096) / 1024 * 1024
    sum = omega arith

-- The identifier that entry `e` gets is positive as an `int`, has the index `e` in its low bits,
-- and is not the one that the entry had before.
next_env_id_lem :
    (env_id e : ℕ)
    → env_id < 2 ^ 31
    → e < nenv
    → let id = next_env_id env_id e in
      (envx id ≡ e) × (0 < id) × (is_neg id ≡ false) × (id ≢ env_id)
next_env_id_lem env_id e small lt = rw (next_env_id-eq env_id e small lt) (ground arith)

-- May `cur` use `envid`: does it name an environment in use, and one that `cur` may manage (itself
-- or a child of its own), where that is asked?
abbrev pub usable : Kern → (cur : ℕ) → (checkperm : Bool) → (envid : ℕ) → Bool
usable k cur checkperm envid =
    let e = envx envid in
    not ((k.envs e).env_status == env_free_status)
    && ((k.envs e).env_id == envid
        && (not checkperm || (e == cur || (k.envs e).env_parent_id == (k.envs cur).env_id)))

-- `envid2env` on an identifier other than 0, with a current environment: it finds the entry of the
-- index bits if that is usable, and otherwise returns -E_BAD_ENV and NULL. It changes nothing.
pub envid2env-eq :
    (k : Kern) (envid cur : ℕ) (checkperm : Bool)
    → envid ≢ 0
    → k.curenv ≡ some cur
    → envid2env envid checkperm k
      ≡ ok (if usable k cur checkperm envid then (0, some (envx envid)) else (e_bad_env, none)) k
unfolding envid2env may_manage
envid2env-eq k envid cur checkperm ne now = ground arith

-- On 0 it finds the current environment, which needs no permission.
pub envid2env-zero : (k : Kern) (checkperm : Bool) → envid2env 0 checkperm k ≡ ok (0, k.curenv) k
unfolding envid2env
envid2env-zero k checkperm = refl

-- Where no permission is asked for, there need not be a current environment.
pub envid2env-any :
    (k : Kern) (envid : ℕ)
    → envid ≢ 0
    → envid2env envid false k
      ≡ ok (if usable k 0 false envid then (0, some (envx envid)) else (e_bad_env, none)) k
unfolding envid2env may_manage
envid2env-any k envid ne = ground arith

-- Once an entry has been given out again, `envid2env` finds it by its new identifier and not by the
-- old one.
pub envid2env-next_env_id :
    (k : Kern) (e old : ℕ)
    → old < 2 ^ 31
    → e < nenv
    → (k.envs e).env_id ≡ next_env_id old e
    → (k.envs e).env_status ≢ env_free_status
    → (envid2env (next_env_id old e) false k ≡ ok (0, some e) k)
      × (old ≢ 0 → envx old ≡ e → envid2env old false k ≡ ok (e_bad_env, none) k)
envid2env-next_env_id k e old small lt id used = (
  envid2env-any k new (λ z. absurd (omega (arith, facts.1))) ∙ rw (good, facts.0) refl,
  λ ne index. envid2env-any k old ne ∙ rw (stale index) refl,
)
  where
    new : ℕ
    new = next_env_id old e

    facts : (envx new ≡ e) × (0 < new) × (is_neg new ≡ false) × (new ≢ old)
    facts = next_env_id_lem old e small lt

    good : usable k 0 false new ≡ true
    good = rw facts.0 (ground (arith, id))

    stale : envx old ≡ e → usable k 0 false old ≡ false
    stale index = rw index (ground (arith, id, facts.3))

-- Every entry in use stands at the index that its identifier has in its low bits.
abbrev pub IsIndexed : Kern → Type 0
IsIndexed k =
    (e : ℕ) → e < nenv → (k.envs e).env_status ≢ env_free_status → envx (k.envs e).env_id ≡ e

-- The environment that `cur` means by `envid`: itself by 0; by another number an entry of the table
-- that is in use under that identifier and, where permission is asked for, is `cur` or its child.
abbrev pub Means : Kern → (cur : ℕ) → (checkperm : Bool) → (envid e : ℕ) → Type 0
Means k cur checkperm envid e =
    ((envid ≡ 0) × (e ≡ cur))
    ⊎ ((envid ≢ 0)
        × (e < nenv)
        × ((k.envs e).env_status ≢ env_free_status)
        × ((k.envs e).env_id ≡ envid)
        × (checkperm ≡ true → (e ≡ cur) ⊎ ((k.envs e).env_parent_id ≡ (k.envs cur).env_id)))

usable-Means :
    (k : Kern) (cur envid : ℕ) (checkperm : Bool)
    → envid ≢ 0
    → usable k cur checkperm envid ≡ true
    → Means k cur checkperm envid (envx envid)
usable-Means k cur envid checkperm ne h =
    inr (ne, omega arith, ground arith, ground arith, λ asked. ground arith)

Means-usable :
    (k : Kern) (cur envid : ℕ) (checkperm : Bool) (e : ℕ)
    → IsIndexed k
    → envid ≢ 0
    → usable k cur checkperm envid ≡ false
    → ¬ Means k cur checkperm envid e
Means-usable k cur envid checkperm e indexed ne h (inl (zero, same)) = ne zero
Means-usable k cur envid checkperm e indexed ne h (inr (ne', lt, used, id, may)) =
    let index : envx envid ≡ e = subst (λ i. envx i ≡ e) id (indexed e lt used) in
    let h' = rw index at h in
    elim (Bool-cases checkperm) [
      | inl asked ↦ elim (may asked) [
        | inl own ↦ ground (arith, own, used, id)
        | inr child ↦ ground (arith, child, used, id)
      ]
      | inr free ↦ ground (arith, free, used, id)
    ]

-- Where every entry in use stands at the index of its identifier, and there is a current
-- environment: if some environment is meant by `envid`, `envid2env` finds one that is; if none is,
-- it returns -E_BAD_ENV and NULL. It changes nothing.
pub envid2env_lem :
    (k : Kern) (envid cur : ℕ) (checkperm : Bool)
    → IsIndexed k
    → k.curenv ≡ some cur
    → ((e : ℕ) × (envid2env envid checkperm k ≡ ok (0, some e) k) × Means k cur checkperm envid e)
      ⊎ ((envid2env envid checkperm k ≡ ok (e_bad_env, none) k)
          × ((e : ℕ) → ¬ Means k cur checkperm envid e))
envid2env_lem k envid cur checkperm indexed now = elim (ℕ_discrete envid 0) [
  | yes zero ↦
      inl (cur, rw zero (envid2env-zero k checkperm ∙ ap (λ c. ok (0, c) k) now), inl (zero, refl))
  | no ne ↦
      let found = envid2env-eq k envid cur checkperm ne now in
      elim (Bool-cases (usable k cur checkperm envid)) [
        | inl good ↦
            inl (envx envid, found ∙ rw good refl, usable-Means k cur envid checkperm ne good)
        | inr bad ↦
            inr (found ∙ rw bad refl, λ e. Means-usable k cur envid checkperm e indexed ne bad)
      ]
]
