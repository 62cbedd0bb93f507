-- ===== src/Env/Table.antt =====
-- The table of environments of kern/env.c: `env_init` and `envid2env`.
use arch.Base.{true, ℕ, zero, suc, ◌%◌, Bool, ◌||◌, Option, none, some, not, ◌==◌}
use arch.Base.{if◌then◌else◌, is_ptr, update}
use arch.Kern.{Kern, M, wild, ok, stop, pure, fail, get, modify, ◌>>=◌}
use arch.Kern.Layout.{nenv, env_free_status, e_bad_env}

-- `ENVX(envid)`
abbrev pub envx : ℕ → ℕ
envx envid = envid % nenv

-- One round of the loop of `env_init`.
unfoldable pub env_init_round : ℕ → Kern → Kern
env_init_round i k = record k {
  envs =
      update k.envs i (record (k.envs i) {
        env_id = 0;
        env_status = env_free_status;
        env_link = k.env_free_list;
      });
  env_free_list = some i;
}

-- The rounds for the entries below the bound, from the last one down.
unfoldable pub env_init_loop : ℕ → Kern → Kern
env_init_loop zero k = k
env_init_loop (suc n) k = env_init_loop n (env_init_round n k)

-- `env_init` less `env_init_percpu`, which loads segment registers.
unfoldable pub env_init : M (Unit {0})
env_init = modify (env_init_loop nenv)

-- A pointer where it is used as an address: a NULL one is a wild pointer.
unfoldable pub deref : Option ℕ → M ℕ
deref none = fail wild
deref (some e) = pure e

-- The last test of `envid2env`; a wild read where it asks for the `env_id` of a NULL `curenv`.
unfoldable pub may_manage : Bool → ℕ → M Bool
may_manage checkperm e k = if not checkperm || is_ptr e k.curenv then ok true k else elim k.curenv [
  | none ↦ stop wild k
  | some cur ↦ ok ((k.envs e).env_parent_id == (k.envs cur).env_id) k
]

-- The result, and what `*env_store` is set to.
unfoldable pub envid2env : ℕ → (checkperm : Bool) → M (ℕ × Option ℕ)
envid2env envid checkperm = do
  k ← get (λ k. k)
  if envid == 0
      then pure (0, k.curenv)
      else (let e = envx envid in
          if (k.envs e).env_status == env_free_status || not ((k.envs e).env_id == envid)
          then pure (e_bad_env, none)
          else (do
            allowed ← may_manage checkperm e
            if allowed then pure (0, some e) else pure (e_bad_env, none)))
