-- ===== src/Examples/Memory.antt =====
-- Runs of the functions of kern/pmap.c on the small machine.
use arch.Base.{
  ℕ, ◌<◌, ◌≡◌, refl, ◌⊎◌, true, false, none, some, List, [], ◌∷◌, arith, has, ltb, if◌then◌else◌,
}
use arch.Kern.{ok, Ensures, write_word}
use arch.Kern.Layout.{e_fault}
use arch.Base.{◌↔◌}
use arch.Pmap.Alloc.{page_free, page_init, kaddr}
use arch.Pmap.Alloc.FreeList.{IsFreeList, page_free-twice}
use arch.Pmap.Alloc.Init.{IsFree, page_init-IsFreeList}
use arch.Pmap.Walk.{pgdir_walk, entry_of, page_lookup, page_insert, page_remove}
use arch.Pmap.Walk.Entry.{pte_of}
use arch.Pmap.Walk.Insert.{page_lookup-page_insert}
use arch.Pmap.Walk.Remap.{page_insert-replace}
use arch.Pmap.Walk.Remove.{page_lookup-page_remove}
use arch.Pmap.Mem.{user_mem_check, check_pages, refuses}
use arch.Pmap.Mem.Pages.{page_at}
use arch.Pmap.Mem.Check.{allows, user_mem_check_lem, user_mem_check_sound, user_mem_check_wraps}
use arch.Examples.{
  machine, machine-IsFreeList, one_left, one_left-IsFreeList, bare, machine-table, machine-tables,
}

page_free-twice_example :
    Ensures (λ _ k'. (ys : List ℕ) → ¬ (IsFreeList k' ys)) (page_free 7 one_left)
page_free-twice_example = page_free-twice 7 one_left-IsFreeList

page_init-IsFreeList_example :
    Ensures
      (λ _ k'.
        ((xs : List ℕ) × IsFreeList k' xs × ((i : ℕ) → i < 16 → (has i xs ≡ true) ↔ IsFree 9 i))
        × ((i : ℕ) → i < 16 → ¬ (IsFree 9 i) → (k'.pages i).pp_ref ≡ 1)
        × (k'.mem ≡ bare.mem))
      (page_init 0xf000_8123 bare)
page_init-IsFreeList_example =
    page_init-IsFreeList bare 0xf000_8123 refl (omega arith) (omega arith)

page_lookup-page_insert_example :
    Ensures
      (λ r k'.
        (r ≡ 0)
        × (page_lookup 3 0x2000 k' ≡ ok (some (5, (4, 2))) k')
        × (k'.mem 4 2 ≡ pte_of 5 7)
        × ((k'.pages 5).pp_ref ≡ 2)
        × IsFreeList k' (6 ∷ 7 ∷ []))
      (page_insert 3 5 0x2000 7 machine)
page_lookup-page_insert_example =
    page_lookup-page_insert 5 7 (6 ∷ 7 ∷ [])
      (record { present = refl; table = refl; in_range = omega arith }) refl (omega arith)
      (omega arith) (omega arith) machine-IsFreeList refl

page_lookup-page_remove_example :
    Ensures
      (λ _ k'.
        IsFreeList k' (5 ∷ 6 ∷ 7 ∷ [])
        × ((k'.pages 5).pp_ref ≡ 0)
        × (k'.mem ≡ write_word machine.mem 4 1 0)
        × (page_lookup 3 0x1000 k' ≡ ok none k'))
      (page_remove 3 0x1000 machine)
page_lookup-page_remove_example =
    page_lookup-page_remove 5 (6 ∷ 7 ∷ []) machine-table (omega arith) refl (omega arith)
      (omega arith) machine-IsFreeList refl (omega arith) (omega arith)

user_mem_check_lem_example :
    ((user_mem_check 3 0x1ff0 32 5 machine ≡ ok 0 machine)
      × ((j : ℕ) → j < 2 → allows machine 3 5 (page_at 0x1ff0 j) ≡ true))
    ⊎ ((j : ℕ) × (j < 2)
        × ((m : ℕ) → m < j → allows machine 3 5 (page_at 0x1ff0 m) ≡ true)
        × (allows machine 3 5 (page_at 0x1ff0 j) ≡ false)
        × (user_mem_check 3 0x1ff0 32 5 machine
            ≡ ok e_fault (record machine {
              user_mem_check_addr =
                  if ltb (page_at 0x1ff0 j) 0x1ff0 then 0x1ff0 else page_at 0x1ff0 j;
            })))
user_mem_check_lem_example = user_mem_check_lem machine 3 0x1ff0 32 5 machine-tables (omega arith)

passed : user_mem_check 3 0x1010 32 5 machine ≡ ok 0 machine
unfolding user_mem_check check_pages refuses pgdir_walk entry_of kaddr
passed = refl

user_mem_check_sound_example : allows machine 3 5 0x1000 ≡ true
user_mem_check_sound_example =
    user_mem_check_sound machine machine 3 0x1010 32 5 machine-tables (omega arith) passed 0x1020
      (omega arith) (omega arith)

user_mem_check_wraps_example : user_mem_check 3 0xffff_f800 0x1000 5 machine ≡ ok 0 machine
user_mem_check_wraps_example =
    user_mem_check_wraps machine 3 0xffff_f800 0x1000 5 (omega arith) (omega arith) (omega arith)

page_insert-replace_example :
    Ensures
      (λ r k'.
        (r ≡ 0)
        × (page_lookup 3 0x1000 k' ≡ ok (some (9, (4, 1))) k')
        × (k'.mem 4 1 ≡ pte_of 9 5)
        × ((k'.pages 9).pp_ref ≡ 2)
        × ((k'.pages 5).pp_ref ≡ 0)
        × IsFreeList k' (5 ∷ 6 ∷ 7 ∷ []))
      (page_insert 3 9 0x1000 5 machine)
page_insert-replace_example =
    page_insert-replace 9 5 5 (6 ∷ 7 ∷ []) machine-table refl refl (omega arith) (omega arith)
      (omega arith) (omega arith) (omega arith) machine-IsFreeList refl refl (omega arith)
      (omega arith)
