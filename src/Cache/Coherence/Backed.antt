-- ===== src/Cache/Coherence/Backed.antt =====
-- src/directcache.h: a direct cache over the map behind it.
use vexllvm.Base.{ℕ, ◌≡◌, none, some, arith}
use vexllvm.Base.Maps.{Map, find, insert, erase, find-insert, find-erase}
use vexllvm.DirectCache
use vexllvm.DirectCache.{DirectCache, IsBacked, get-put, get-put-none, get-flush}

module _ (d : DirectCache ℕ) (m : Map ℕ) (backed : IsBacked d m) (p : ℕ) where
  -- Refilling a slot from the map.
  pub IsBacked-put : (t : ℕ) → find p m ≡ some t → IsBacked (DirectCache.put d p (some t)) m
  IsBacked-put t h = λ q u e. ground (arith, get-put d p q (some t), backed q u)

  -- A new entry in both.
  pub IsBacked-insert : (t : ℕ) → IsBacked (DirectCache.put d p (some t)) (insert p t m)
  IsBacked-insert t =
      λ q u e. ground (arith, get-put d p q (some t), find-insert p q t m, backed q u)

  -- An entry taken out of both.
  pub IsBacked-erase : IsBacked (DirectCache.put d p none) (erase p m)
  IsBacked-erase = λ q u e. ground (arith, get-put d p q none, find-erase p q m, backed q u)

  -- A new entry in the map alone, at an address that the direct cache does not answer.
  pub IsBacked-insert_absent : (t : ℕ) → DirectCache.get d p ≡ none → IsBacked d (insert p t m)
  IsBacked-insert_absent t h = λ q u e. ground (arith, find-insert p q t m, backed q u)

pub IsBacked-flush : (m : Map ℕ) → IsBacked DirectCache.flush m
IsBacked-flush m = λ q u e. ground (arith, get-flush {0} {T = ℕ} q)
