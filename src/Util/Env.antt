-- ===== src/Util/Env.antt =====
-- kv/include/env.h: the files that the log is written to and read from, as interfaces over a state of
-- the file, and what a file promises that does not fail.
use quas_db.Base.{ℕ, Bool, ◌≡◌, List, ◌++◌, take, drop}
use quas_db.Util.Status.{Status, ok}

pub record WritableFile (D : Type 0) : Type 0 where
  pub append : D → List ℕ → D × Status
  pub flush : D → D × Status

pub record SequentialFile (F : Type 0) : Type 0 where
  pub read : F → ℕ → F × List ℕ × Status
  pub skip : F → ℕ → F × Status

-- The Boolean says whether the bytes read are in the buffer that the caller gave.
pub record RandomAccessFile (F : Type 0) : Type 0 where
  pub read : F → (offset n : ℕ) → List ℕ × Bool × Status

-- A file that takes all that it is given: `contents` is what a later reader finds.
pub record KeepsAll {D : Type 0} (file : WritableFile D) (contents : D → List ℕ) : Type 0 where
  pub append_ok : (d : D) (s : List ℕ) → (file.append d s).1 ≡ ok
  pub append_contents : (d : D) (s : List ℕ) → contents (file.append d s).0 ≡ contents d ++ s
  pub flush_ok : (d : D) → (file.flush d).1 ≡ ok
  pub flush_contents : (d : D) → contents (file.flush d).0 ≡ contents d

-- A file that gives the bytes asked for as long as there are any: `rest` is what lies ahead.
pub record GivesAll {F : Type 0} (file : SequentialFile F) (rest : F → List ℕ) : Type 0 where
  pub read_ok : (f : F) (n : ℕ) → (file.read f n).2 ≡ ok
  pub read_bytes : (f : F) (n : ℕ) → (file.read f n).1 ≡ take n (rest f)
  pub read_rest : (f : F) (n : ℕ) → rest (file.read f n).0 ≡ drop n (rest f)

-- A file that gives the bytes asked for from any offset: `all` is what it holds.
pub record GivesFrom {F : Type 0} (file : RandomAccessFile F) (all : F → List ℕ) : Type 0 where
  pub read_ok : (f : F) (offset n : ℕ) → (file.read f offset n).2 ≡ ok
  pub read_bytes : (f : F) (offset n : ℕ) → (file.read f offset n).0 ≡ take n (drop offset (all f))
