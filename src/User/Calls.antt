-- ===== src/User/Calls.antt =====
-- The calls that `duppage` of lib/fork.c makes, where they succeed.
use arch.Base.{
  ℕ, ◌+◌, ◌*◌, ◌/◌, ◌%◌, ◌^◌, ◌<◌, ◌≡◌, refl, ◌∙◌, ap, true, false, some, List, has, arith, bit_or,
  bit_or_step, bit_or-zero, bit_or-shl, ==_iff, ==_ne, false, shl,
}
use arch.Kern.{Kern, M, ok}
use arch.Kern.Layout.{pdx, ptx, pgnum, page2pa, has_p}
use arch.Pmap.Alloc.FreeList.{IsFreeList}
use arch.Pmap.Walk.{page_lookup, page_insert}
use arch.Pmap.Walk.Entry.{pte_of}
use arch.Pmap.Walk.Find.{HasTable, lookup-found}
use arch.Pmap.Walk.Insert.{referred}
use arch.Pmap.Walk.Remap.{remapped, nonzero-present, page_insert-remap-eq}
use arch.Pmap.Walk.Store.{stored}
use arch.Syscall.Dispatch.{syscall}
use arch.Syscall.Envs.{sys_getenvid, cur}
use arch.Env.Table.{deref}
use arch.Syscall.Mapping.{Names, sys_page_map-eq}
use arch.Syscall.Pages.{bad_va, bad_perm, sys_page_map}
use arch.User.{uvpd, uvpt_entry, stub, user_getenvid, user_page_map}
use arch.Kern.Layout.{has_w}
use arch.User.Fork.{has_cow, pte_cow, map_or_panic}

pub uvpt_entry-eq :
    {k : Kern} {va t : ℕ}
    → HasTable k k.cr3 va t
    → va < 2 ^ 32
    → uvpt_entry (pgnum va) k ≡ ok (k.mem t (ptx va)) k
unfolding uvpt_entry uvpd
uvpt_entry-eq {k} {va} {t} h small = rw (dir, tab) (simp (h.present, h.table))
  where
    dir : pgnum va / 1024 ≡ pdx va
    dir = omega arith

    tab : pgnum va % 1024 ≡ ptx va
    tab = omega arith

pub user_getenvid-eq :
    (cgetc : M ℕ) {k : Kern} {c : ℕ}
    → k.curenv ≡ some c
    → user_getenvid cgetc k ≡ ok (k.envs c).env_id k
unfolding user_getenvid stub syscall sys_getenvid cur deref
user_getenvid-eq cgetc now = simp now

pub map_or_panic-eq :
    (cgetc : M ℕ) (k : Kern) {k' : Kern} (src srcva dst dstva perm : ℕ)
    → sys_page_map src srcva dst dstva perm k ≡ ok 0 k'
    → map_or_panic cgetc src srcva dst dstva perm k ≡ ok 0 k'
unfolding map_or_panic user_page_map stub syscall
map_or_panic-eq cgetc k src srcva dst dstva perm e = simp e

-- An entry with PTE_P among its flags is the sum of its parts.
pub pte_of-sum :
    (pp perm : ℕ) → pp < 2 ^ 20 → perm < 2 ^ 12 → perm % 2 ≡ 1 → pte_of pp perm ≡ pp * 2 ^ 12 + perm
pte_of-sum pp perm lt low odd =
    ap (λ z. bit_or (bit_or z perm) 1) twelve
    ∙ ap (λ z. bit_or z 1) (bit_or-shl 12 pp perm (omega arith))
    ∙ omega (arith, bit_or_step (shl pp 12 + perm) 1, bit_or-zero ((shl pp 12 + perm) / 2))
  where
    twelve : page2pa pp ≡ shl pp 12
    twelve = omega arith

-- The entry that a shared page gets is not writable, and is copy-on-write.
pte_of-cow : (pp : ℕ) → pp < 2 ^ 20 → pte_of pp 0x805 ≡ pp * 2 ^ 12 + 0x805
pte_of-cow pp lt = pte_of-sum pp 0x805 lt (omega arith) refl

pub has_cow-pte_of : (pp : ℕ) → pp < 2 ^ 20 → has_cow (pte_of pp 0x805) ≡ true
has_cow-pte_of pp lt =
    rw (pte_of-cow pp lt) ((==_iff ((pp * 2 ^ 12 + 0x805) / pte_cow % 2) 1).1 (omega arith))

pub has_w-pte_of : (pp : ℕ) → pp < 2 ^ 20 → has_w (pte_of pp 0x805) ≡ false
has_w-pte_of pp lt = rw (pte_of-cow pp lt) (==_ne ((pp * 2 ^ 12 + 0x805) / 2 % 2) 1 (omega arith))

pub has_p-pte_of : (pp : ℕ) → pp < 2 ^ 20 → has_p (pte_of pp 0x805) ≡ true
has_p-pte_of pp lt = rw (pte_of-cow pp lt) ((==_iff ((pp * 2 ^ 12 + 0x805) % 2) 1).1 (omega arith))

-- The state behind the first mapping, the child's.
abbrev pub given : (dc va tc pp : ℕ) → Kern → Kern
given dc va tc pp k = stored dc pp va 0x805 tc (referred pp k)

pub lookup-page :
    {k : Kern} {pgdir va t pp : ℕ}
    → HasTable k pgdir va t
    → has_p (k.mem t (ptx va)) ≡ true
    → pgnum (k.mem t (ptx va)) ≡ pp
    → pp < k.npages
    → page_lookup pgdir va k ≡ ok (some (pp, (t, ptx va))) k
lookup-page {k} {va} {t} h present page lt =
    lookup-found h (nonzero-present _ present) (rw page lt)
    ∙ ap (λ q. ok (some (q, (t, ptx va))) k) page

-- Mapping the parent's page into the child.
pub map_child-eq :
    {k k1 : Kern} {c envid pid dp dc va tp pp : ℕ}
    → k.curenv ≡ some c
    → Names k c pid dp
    → Names k c envid dc
    → HasTable k dp va tp
    → has_p (k.mem tp (ptx va)) ≡ true
    → pgnum (k.mem tp (ptx va)) ≡ pp
    → bad_va va ≡ false
    → pp < k.npages
    → page_insert dc pp va 0x805 k ≡ ok 0 k1
    → sys_page_map pid va envid va 0x805 k ≡ ok 0 k1
unfolding bad_perm
map_child-eq {va} now s d hp present page good lt inserted =
    sys_page_map-eq now s d va va 0x805 good good refl (lookup-page hp present page lt) refl
      inserted

-- Mapping it again into the parent itself, with the same permissions.
pub map_parent-eq :
    {k : Kern} {c pid dp va tp pp : ℕ} (xs : List ℕ)
    → k.curenv ≡ some c
    → Names k c pid dp
    → HasTable k dp va tp
    → has_p (k.mem tp (ptx va)) ≡ true
    → pgnum (k.mem tp (ptx va)) ≡ pp
    → bad_va va ≡ false
    → IsFreeList k xs
    → has pp xs ≡ false
    → pp < k.npages
    → 0 < ((referred pp k).pages pp).pp_ref
    → ((referred pp k).pages pp).pp_ref < 2 ^ 16
    → sys_page_map pid va pid va 0x805 k ≡ ok 0 (remapped dp pp va 0x805 tp pp k)
unfolding bad_perm
map_parent-eq {va} {tp} {pp} xs now s hp present page good v new lt pos fits =
    sys_page_map-eq now s s va va 0x805 good good refl (lookup-page hp present page lt) refl
      (page_insert-remap-eq pp 0x805 pp xs hp present page v new lt new pos fits)
