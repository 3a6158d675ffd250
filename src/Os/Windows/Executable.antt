-- ===== src/Os/Windows/Executable.antt =====
-- The heap of executable memory on Windows in src/os.c, which the first allocation creates.
use feline.Prelude.{ℕ, ◌==◌, ◌≡◌, ◌≢◌, refl, arith, false, if◌then◌else◌, ℤ}

-- The calls: HeapCreate and HeapAlloc return 0 where they fail.
pub record Heaps : Type 1 where
  pub System : Type 0
  pub heap_create : System → ℕ × System
  pub heap_alloc : ℕ → ℕ → System → ℕ × System
  pub heap_free : ℕ → ℕ → System → System
  pub get_last_error : System → ℤ

module _ (hp : Heaps) where
  open hp use {System, heap_create, heap_alloc, heap_free, get_last_error}

  pub record Process : Type 0 where
    pub system : System
    pub executable_heap : ℕ
    pub os_errno_data : ℤ

  allocate : ℕ → Process → ℕ × Process
  allocate size w =
      let (p, s) = heap_alloc w.executable_heap size w.system in (p, record w { system = s })

  unfoldable pub os_allocate_executable : ℕ → Process → ℕ × Process
  unfolding allocate
  os_allocate_executable size w =
      let (heap, s) = heap_create w.system in
      let w1 = record w { system = s; executable_heap = heap } in
      if w.executable_heap == 0
      then (if heap == 0
          then (0, record w1 { os_errno_data = get_last_error s })
          else allocate size w1)
      else allocate size w

  unfoldable pub os_free_executable : ℕ → Process → Process
  os_free_executable p w = record w { system = heap_free w.executable_heap p w.system }

  -- The heap is created once: where there is one, allocating and freeing keep it.
  pub executable_heap_kept :
      (size p : ℕ) (w : Process)
      → w.executable_heap ≢ 0
      → ((os_allocate_executable size w).1.executable_heap ≡ w.executable_heap)
        × ((os_free_executable p w).executable_heap ≡ w.executable_heap)
  unfolding os_allocate_executable os_free_executable allocate
  executable_heap_kept size p w there =
      let e : (w.executable_heap == 0) ≡ false = ground arith in
      (rw (os_allocate_executable, e) refl, refl)
