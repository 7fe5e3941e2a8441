-- ===== src/Cache/Coherence/Steps.antt =====
-- The single changes that the operations of the caches are made of, and the invariant.
use vexllvm.Base.{ℕ, ◌≡◌, none, some, List, arith, ◌==◌, if◌then◌else◌, Bool-cases, inl, inr}
use vexllvm.Base.Maps.{find, insert, erase, find-insert, find-erase}
use vexllvm.DirectCache
use vexllvm.DirectCache.{DirectCache, IsBacked}
use vexllvm.Cache.State.{Cache}
use vexllvm.Cache.Coherence.Backed.{IsBacked-insert, IsBacked-erase, IsBacked-insert_absent}
use vexllvm.Cache.Coherence.Entries.{IsCoherent}

module _ {addr_of : ℕ → ℕ} {c : Cache} (v : IsCoherent addr_of c) where
  pub refill_vsb-IsCoherent :
      {d : DirectCache ℕ}
      → IsBacked d c.vexsb_cache
      → IsCoherent addr_of (record c { vexsb_dc = d })
  refill_vsb-IsCoherent h = record {
    vexsb_backed = h;
    func_backed = v.func_backed;
    jit_backed = v.jit_backed;
    addressed = v.addressed;
    func_has_vsb = v.func_has_vsb;
    jit_has_func = v.jit_has_func;
  }

  pub refill_func-IsCoherent :
      {d : DirectCache ℕ} → IsBacked d c.func_cache → IsCoherent addr_of (record c { func_dc = d })
  refill_func-IsCoherent h = record {
    vexsb_backed = v.vexsb_backed;
    func_backed = h;
    jit_backed = v.jit_backed;
    addressed = v.addressed;
    func_has_vsb = v.func_has_vsb;
    jit_has_func = v.jit_has_func;
  }

  pub refill_jit-IsCoherent :
      {d : DirectCache ℕ} → IsBacked d c.jit_cache → IsCoherent addr_of (record c { jit_dc = d })
  refill_jit-IsCoherent h = record {
    vexsb_backed = v.vexsb_backed;
    func_backed = v.func_backed;
    jit_backed = h;
    addressed = v.addressed;
    func_has_vsb = v.func_has_vsb;
    jit_has_func = v.jit_has_func;
  }

  -- The invariant does not speak of destroyed functions and random numbers.
  pub ghost-IsCoherent :
      {fs : List ℕ} {n : ℕ} → IsCoherent addr_of (record c { destroyed = fs; rand_calls = n })
  ghost-IsCoherent = record {
    vexsb_backed = v.vexsb_backed;
    func_backed = v.func_backed;
    jit_backed = v.jit_backed;
    addressed = v.addressed;
    func_has_vsb = v.func_has_vsb;
    jit_has_func = v.jit_has_func;
  }

  pub max-IsCoherent : {n : ℕ} → IsCoherent addr_of (record c { max_cache_ents = n })
  max-IsCoherent = record {
    vexsb_backed = v.vexsb_backed;
    func_backed = v.func_backed;
    jit_backed = v.jit_backed;
    addressed = v.addressed;
    func_has_vsb = v.func_has_vsb;
    jit_has_func = v.jit_has_func;
  }

  module _ (a : ℕ) where
    pub erase_jit-IsCoherent :
        IsCoherent addr_of
          (record c { jit_cache = erase a c.jit_cache; jit_dc = DirectCache.put c.jit_dc a none })
    erase_jit-IsCoherent = record {
      vexsb_backed = v.vexsb_backed;
      func_backed = v.func_backed;
      jit_backed = IsBacked-erase c.jit_dc c.jit_cache v.jit_backed a;
      addressed = v.addressed;
      func_has_vsb = v.func_has_vsb;
      jit_has_func = λ x p h. v.jit_has_func x p (ground (arith, find-erase a x c.jit_cache));
    }

    -- Compiled code goes before its function.
    pub erase_func-IsCoherent :
        find a c.jit_cache ≡ none
        → IsCoherent addr_of (record c {
          func_cache = erase a c.func_cache;
          func_dc = DirectCache.put c.func_dc a none;
        })
    erase_func-IsCoherent absent = record {
      vexsb_backed = v.vexsb_backed;
      func_backed = IsBacked-erase c.func_dc c.func_cache v.func_backed a;
      jit_backed = v.jit_backed;
      addressed = v.addressed;
      func_has_vsb = λ x f h. v.func_has_vsb x f (ground (arith, find-erase a x c.func_cache));
      jit_has_func = λ x p h.
          let (f, e) = v.jit_has_func x p h in (f, ground (arith, find-erase a x c.func_cache));
    }

    -- A function goes before its superblock.
    pub erase_vsb-IsCoherent :
        find a c.func_cache ≡ none
        → IsCoherent addr_of (record c {
          vexsb_dc = DirectCache.put c.vexsb_dc a none;
          vexsb_cache = erase a c.vexsb_cache;
        })
    erase_vsb-IsCoherent absent = record {
      vexsb_backed = IsBacked-erase c.vexsb_dc c.vexsb_cache v.vexsb_backed a;
      func_backed = v.func_backed;
      jit_backed = v.jit_backed;
      addressed = λ x s h. v.addressed x s (ground (arith, find-erase a x c.vexsb_cache));
      func_has_vsb = λ x f h.
          let (s, e) = v.func_has_vsb x f h in (s, ground (arith, find-erase a x c.vexsb_cache));
      jit_has_func = v.jit_has_func;
    }

    pub insert_vsb-IsCoherent :
        (s : ℕ)
        → addr_of s ≡ a
        → IsCoherent addr_of (record c {
          vexsb_cache = insert a s c.vexsb_cache;
          vexsb_dc = DirectCache.put c.vexsb_dc a (some s);
        })
    insert_vsb-IsCoherent s e = record {
      vexsb_backed = IsBacked-insert c.vexsb_dc c.vexsb_cache v.vexsb_backed a s;
      func_backed = v.func_backed;
      jit_backed = v.jit_backed;
      addressed = λ x t h. ground (arith, find-insert a x s c.vexsb_cache, v.addressed x t);
      func_has_vsb = λ x f h.
          let (t, e') = v.func_has_vsb x f h in
          (if a == x then s else t, ground (arith, find-insert a x s c.vexsb_cache));
      jit_has_func = v.jit_has_func;
    }

    pub insert_func-IsCoherent :
        (f s : ℕ)
        → find a c.vexsb_cache ≡ some s
        → IsCoherent addr_of (record c {
          func_cache = insert a f c.func_cache;
          func_dc = DirectCache.put c.func_dc a (some f);
        })
    insert_func-IsCoherent f s e = record {
      vexsb_backed = v.vexsb_backed;
      func_backed = IsBacked-insert c.func_dc c.func_cache v.func_backed a f;
      jit_backed = v.jit_backed;
      addressed = v.addressed;
      func_has_vsb = λ x g h. elim (Bool-cases (a == x)) [
        | inl here ↦ (s, ground arith)
        | inr other ↦ v.func_has_vsb x g (ground (arith, find-insert a x f c.func_cache))
      ];
      jit_has_func = λ x p h.
          let (g, e') = v.jit_has_func x p h in
          (if a == x then f else g, ground (arith, find-insert a x f c.func_cache));
    }

    pub insert_jit-IsCoherent :
        (p f : ℕ)
        → find a c.func_cache ≡ some f
        → IsCoherent addr_of (record c {
          jit_cache = insert a p c.jit_cache;
          jit_dc = DirectCache.put c.jit_dc a (some p);
        })
    insert_jit-IsCoherent p f e = record {
      vexsb_backed = v.vexsb_backed;
      func_backed = v.func_backed;
      jit_backed = IsBacked-insert c.jit_dc c.jit_cache v.jit_backed a p;
      addressed = v.addressed;
      func_has_vsb = v.func_has_vsb;
      jit_has_func = λ x q h. elim (Bool-cases (a == x)) [
        | inl here ↦ (f, ground arith)
        | inr other ↦ v.jit_has_func x q (ground (arith, find-insert a x p c.jit_cache))
      ];
    }

    pub insert_jit_absent-IsCoherent :
        (p f : ℕ)
        → find a c.func_cache ≡ some f
        → DirectCache.get c.jit_dc a ≡ none
        → IsCoherent addr_of (record c { jit_cache = insert a p c.jit_cache })
    insert_jit_absent-IsCoherent p f e absent = record {
      vexsb_backed = v.vexsb_backed;
      func_backed = v.func_backed;
      jit_backed = IsBacked-insert_absent c.jit_dc c.jit_cache v.jit_backed a p absent;
      addressed = v.addressed;
      func_has_vsb = v.func_has_vsb;
      jit_has_func = λ x q h. elim (Bool-cases (a == x)) [
        | inl here ↦ (f, ground arith)
        | inr other ↦ v.jit_has_func x q (ground (arith, find-insert a x p c.jit_cache))
      ];
    }
