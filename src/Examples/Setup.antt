-- ===== src/Examples/Setup.antt =====
-- Concrete parameters for the runs: an LRU cache, ASCII.
use finpipe.Base.{
  refl, ◌&&◌, ◌||◌, [], Dict, lookup, insert, erase, lookup-insert, lookup-erase, eq_refl, arith,
  leb, ◌==◌,
}
use finpipe.Cache.Memory.{Lru}
use finpipe.Text.{Unicode}

-- an LRU cache large enough that nothing is evicted
abbrev pub unbounded : {V : Type 0} → Lru (Dict V) V
unbounded = record {
  empty = [];
  lookup = λ k s. (lookup k s, s);
  store = insert;
  delete = erase;
  lookup_empty = λ k. refl;
  lookup_keeps = λ k j s. refl;
  lookup-delete = lookup-erase;
  lookup-store_self = λ k v s. rw (lookup-insert k k v s, eq_refl) refl;
  lookup-store_other = λ k j v w s other h. ground (arith, lookup-insert k j v s);
}

-- the white space and the letters of ASCII; the texts of the runs have no capital letters
abbrev pub ascii : Unicode
ascii = record {
  is_space = λ n. n == 32 || (leb 9 n && leb n 13);
  is_alpha = λ n. (leb 65 n && leb n 90) || (leb 97 n && leb n 122);
  lower = λ s. s;
  upper = λ s. s;
  newline-is_space = refl;
  blank-is_space = refl;
}
