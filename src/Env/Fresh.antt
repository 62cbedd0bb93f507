-- ===== src/Env/Fresh.antt =====
-- What `env_alloc` of kern/env.c does when an entry and a page are free, and when one is not.
use arch.Base.{
  ℕ, ◌+◌, ◌%◌, ◌^◌, ◌<◌, ◌≡◌, refl, ◌≢◌, true, false, none, some, arith, bit_or, List, [], ◌∷◌,
}
use arch.Base.{update}
use arch.Kern.{Kern, ok, Ensures, Ensures-map, write_word}
use arch.Kern.Layout.{nenv, env_free_status, e_bad_env, e_no_mem, env_runnable, pdx, uvpt, page2pa}
use arch.Pmap.Alloc.FreeList.{IsFreeList-tail}
use arch.Pmap.Alloc.FreeList.{IsFreeList, taken, page_alloc-eq, page_alloc-nil, kaddr-page2pa}
use arch.Pmap.Alloc.Refs.{counted}
use arch.Pmap.Walk.{incref}
use arch.Env.Table.{envx, envid2env}
use arch.Env.Ids.{envid2env-next_env_id}
use arch.Env.Alloc.{env_setup_vm, env_alloc, fresh_env, next_env_id}

-- The state after `env_setup_vm` made page `x` the directory of entry `e`.
abbrev pub with_vm : (e x : ℕ) → Kern → Kern
with_vm e x k =
    let k1 = taken true x k in
    let k2 = counted x (((k1.pages x).pp_ref + 1) % 2 ^ 16) k1 in
    record k2 {
      envs = update k.envs e (record (k.envs e) { env_pgdir = some x });
      mem = write_word (update k2.mem x (k2.mem k.kern_pgdir)) x (pdx uvpt) (bit_or (page2pa x) 5);
    }

env_setup_vm-eq :
    {k : Kern} (e x : ℕ) (xs : List ℕ)
    → IsFreeList k (x ∷ xs)
    → env_setup_vm e k ≡ ok 0 (with_vm e x k)
unfolding env_setup_vm incref
env_setup_vm-eq {k} e x xs v =
    simp
      (page_alloc-eq k true x v.linked.0 v.linked.1 v.small, kaddr-page2pa _ x v.linked.1 v.small)

-- The state after a successful `env_alloc`.
abbrev pub with_env : (e x parent_id : ℕ) → Kern → Kern
with_env e x parent_id k =
    let k1 = with_vm e x k in
    let envs1 = update k1.envs e (fresh_env e parent_id (k1.envs e)) in
    record k1 { envs = envs1; env_free_list = (envs1 e).env_link }

env_alloc-eq :
    {k : Kern} (parent_id e x : ℕ) (xs : List ℕ)
    → k.env_free_list ≡ some e
    → IsFreeList k (x ∷ xs)
    → env_alloc parent_id k ≡ ok (0, some e) (with_env e x parent_id k)
unfolding env_alloc
env_alloc-eq {k} parent_id e x xs head v = simp (head, env_setup_vm-eq e x xs v)

-- With an entry `e` and a page `x` at the heads of the free lists, `env_alloc` succeeds with `e`: it
-- is runnable, a child of `parent_id`, with the next identifier, no fault handler and not waiting
-- for a message; `x` is its directory, a copy of the kernel's but for the entry of UVPT, and has
-- one reference; both free lists lose their head, and no other entry changes.
pub env_alloc_lem :
    {k : Kern} (parent_id e x : ℕ) (xs : List ℕ)
    → k.env_free_list ≡ some e
    → k.kern_pgdir ≢ x
    → IsFreeList k (x ∷ xs)
    → Ensures
        (λ r k'.
          let v = k'.envs e in
          (r ≡ (0, some e))
          × (v.env_status ≡ env_runnable)
          × (v.env_parent_id ≡ parent_id)
          × (v.env_id ≡ next_env_id (k.envs e).env_id e)
          × (v.env_pgfault_upcall ≡ 0)
          × (v.env_ipc_recving ≡ false)
          × (v.env_pgdir ≡ some x)
          × ((d : ℕ) → d ≢ pdx uvpt → k'.mem x d ≡ k.mem k.kern_pgdir d)
          × ((k'.pages x).pp_ref ≡ 1)
          × (k'.env_free_list ≡ (k.envs e).env_link)
          × IsFreeList k' xs
          × ((i : ℕ) → i ≢ e → k'.envs i ≡ k.envs i))
        (env_alloc parent_id k)
unfolding fresh_env
env_alloc_lem {k} parent_id e x xs head apart v = rw (env_alloc-eq parent_id e x xs head v) (
  refl,
  ground arith,
  ground arith,
  ground arith,
  ground arith,
  ground arith,
  ground arith,
  λ d ne. ground arith,
  ground (arith, v.linked.2),
  ground arith,
  IsFreeList-tail x xs v refl refl (ground arith) (λ p ne. ground arith),
  λ i ne. ground arith,
)

-- Where an entry that was in use before is given out again by a successful `env_alloc`, `envid2env`
-- finds the new environment by the identifier that it now carries, and refuses the one that the
-- entry carried before.
pub envid2env-env_alloc :
    {k : Kern} (parent_id e x : ℕ) (xs : List ℕ)
    → k.env_free_list ≡ some e
    → e < nenv
    → (k.envs e).env_id < 2 ^ 31
    → (k.envs e).env_id ≢ 0
    → envx (k.envs e).env_id ≡ e
    → k.kern_pgdir ≢ x
    → IsFreeList k (x ∷ xs)
    → Ensures
        (λ r k'.
          (envid2env (k'.envs e).env_id false k' ≡ ok (0, some e) k')
          × (envid2env (k.envs e).env_id false k' ≡ ok (e_bad_env, none) k'))
        (env_alloc parent_id k)
envid2env-env_alloc {k} parent_id e x xs head lt small ne index apart v =
    Ensures-map _ _ (env_alloc parent_id k) (env_alloc_lem parent_id e x xs head apart v)
      λ r k' (_, runs, _, id, _, _, _, _, _, _, _, _).
        let used : (k'.envs e).env_status ≢ env_free_status = λ z. ground (arith, runs, z) in
        let found = envid2env-next_env_id k' e (k.envs e).env_id small lt id used in
        (rw id found.0, found.1 ne index)

-- With a free entry but no free page, `env_alloc` returns -E_NO_MEM and changes nothing: the entry
-- stays at the head of its free list.
env_alloc-no_page :
    (k : Kern) (parent_id e : ℕ)
    → k.env_free_list ≡ some e
    → IsFreeList k []
    → env_alloc parent_id k ≡ ok (e_no_mem, none) k
unfolding env_alloc env_setup_vm
env_alloc-no_page k parent_id e head v = simp (head, page_alloc-nil true v)
