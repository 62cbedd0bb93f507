-- ===== src/Pmap/Alloc.antt =====
-- The page allocator of kern/pmap.c: `boot_alloc`, `page_init`, `page_alloc`, `page_free` and
-- `page_decref`, and the address conversions of kern/pmap.h.
pub mod FreeList
pub mod Init
pub mod Refs
use arch.Base.{
  ℕ, zero, suc, ◌+◌, ◌-◌, ◌%◌, ◌/◌, ◌^◌, ◌*◌, Bool, ◌&&◌, ◌||◌, Option, none, some, not,
}
use arch.Base.{◌==◌, leb, ltb, if◌then◌else◌, is_null}
use arch.Kern.{Kern, PageInfo, M, panic, ok, stop, pure, fail, get, modify, when, ◌>>=◌, ◌>>◌}
use arch.Kern.{set_page, clear_page}
use arch.Kern.Layout.{u32, pgsize, kernbase, iophysmem, mpentry_paddr, round_up, pgnum, page2pa}

-- `KADDR(pa)`, as the number of the page that it points into: `panic` beyond physical memory.
unfoldable pub kaddr : ℕ → M ℕ
kaddr pa k = if leb k.npages (pgnum pa) then stop panic k else ok (pgnum pa) k

-- `pa2page(pa)`
unfoldable pub pa2page : ℕ → M ℕ
pa2page pa k = if leb k.npages (pgnum pa) then stop panic k else ok (pgnum pa) k

-- `PADDR(kva)` of an address
unfoldable pub paddr : ℕ → M ℕ
paddr kva k = if ltb kva kernbase then stop panic k else ok (kva - kernbase) k

-- `end` is the linker's symbol for the end of the kernel image.
unfoldable pub boot_alloc : (end : ℕ) → ℕ → M ℕ
boot_alloc end n k =
    let first = if k.nextfree == 0 then round_up end pgsize else k.nextfree in
    ok first (record k { nextfree = round_up ((first + n) % u32) pgsize })

-- One round of the loop of `page_init`: is page `i` in use from the start?
unfoldable pub reserved : ℕ → ℕ → Bool
reserved kernel_end_page i =
    i == 0 || leb (iophysmem / pgsize) i && ltb i kernel_end_page || i == mpentry_paddr / pgsize

unfoldable pub page_init_round : ℕ → ℕ → Kern → Kern
page_init_round kernel_end_page i k =
    if reserved kernel_end_page i
    then record k {
      pages = λ j. if j == i then record { pp_link = none; pp_ref = 1 } else k.pages j;
    }
    else record k {
      pages = λ j. if j == i then record { pp_link = k.page_free_list; pp_ref = 0 } else k.pages j;
      page_free_list = some i;
    }

-- The rounds for the pages below the bound, in order.
unfoldable pub page_init_loop : ℕ → ℕ → Kern → Kern
page_init_loop kernel_end_page zero k = k
page_init_loop kernel_end_page (suc n) k =
    page_init_round kernel_end_page n (page_init_loop kernel_end_page n k)

unfoldable pub page_init : (end : ℕ) → M (Unit {0})
page_init end = do
  kva ← boot_alloc end 0
  pa ← paddr kva
  modify λ k. page_init_loop (pa / pgsize) k.npages k

unfoldable pub page_alloc : (zeroed : Bool) → M (Option ℕ)
page_alloc zeroed = do
  head ← get (λ k. k.page_free_list)
  elim head [
    | none ↦ pure none
    | some ret ↦ do
      pi ← get (λ k. k.pages ret)
      modify (λ k. record k { page_free_list = pi.pp_link })
      set_page ret (record pi { pp_link = none })
      when zeroed (do p ← kaddr (page2pa ret); clear_page p)
      pure (some ret)
  ]

unfoldable pub page_free : ℕ → M (Unit {0})
page_free pp = do
  pi ← get (λ k. k.pages pp)
  if not (pi.pp_ref == 0) || not (is_null pi.pp_link) then fail panic else do
    head ← get (λ k. k.page_free_list)
    set_page pp (record pi { pp_link = head })
    modify (λ k. record k { page_free_list = some pp })

-- `pp_ref` is a `uint16_t`.
unfoldable pub page_decref : ℕ → M (Unit {0})
page_decref pp = do
  pi ← get (λ k. k.pages pp)
  let n = (pi.pp_ref + 2 ^ 16 - 1) % 2 ^ 16
  set_page pp (record pi { pp_ref = n })
  if n == 0 then page_free pp else pure tt
