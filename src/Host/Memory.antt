-- ===== src/Host/Memory.antt =====
-- A host in memory, which has the laws of `HostLaws`: a witness that they can hold. Its block store
-- is a list under names that it makes up, and its pins and files are lists too.
use Prim.Native.String.{◌++◌}
use mathlib.Core.List.{mem-cons_self, mem-cons_of_mem}
use text.Mathlib.TextPositions.{eq_refl}
use mathlib.Core.Path.{subst₂}
use dorothy.Base.{
  ℕ, zero, suc, String, ◌≡◌, refl, sym, ap, subst, some, true, false, List, [], ◌∷◌, Mem, ◌==◌,
  length, if◌then◌else◌,
}
use dorothy.Version.{Version}
use dorothy.Outcome.{Reply, ok, err}
use dorothy.Host.{Host, HostLaws, Serves, ipfs_path}

pub record Memory : Type 0 where
  pub blocks : List (String × List Version)
  pub pins : List String
  pub files : List (String × String)

abbrev lookup : {A : Type 0} → String → List (String × A) → Reply A
lookup k [] = err "not found"
lookup k ((j, a) ∷ rest) = if j == k then ok a else lookup k rest

abbrev cid_of : ℕ → String
cid_of zero = "Qm"
cid_of (suc n) = "Q" ++ cid_of n

abbrev pub start : Memory
start = record { blocks = []; pins = []; files = [] }

abbrev pub memory : Host
memory = record {
  World = Memory;
  Bytes = List Version;
  FileNode = List Version;
  CidPath = String;
  encode = λ vs. ok vs;
  decode = λ text. ok text;
  new_path = λ p. ok p;
  reader_file = λ text. text;
  to_file = λ n. some n;
  add_node = λ n pin w.
      let cid = cid_of (length w.blocks) in
      (ok cid, record w { blocks = (ipfs_path cid, n) ∷ w.blocks });
  get_node = λ p w. (lookup p w.blocks, w);
  pin_add = λ p w. (ok tt, record w { pins = p ∷ w.pins });
  find_peer = λ id w. (ok id, w);
  swarm_connect = λ address w. (ok tt, w);
  write_to = λ n dest w. (ok tt, w);
  is_dir = λ p w. (ok false, w);
  serial_file = λ p w. (ok [], w);
  slice_directory = λ entries. [];
  base = λ p. p;
  join = λ directory name. directory ++ ("/" ++ name);
  write_file = λ name text w. (ok tt, record w { files = (name, text) ∷ w.files });
  read_file = λ name w. (lookup name w.files, w);
  now = λ w. record { instant = 20; zone = "UTC" };
}

lookup_first :
    {A : Type 0} (k : String) (a : A) (rest : List (String × A)) → lookup k ((k, a) ∷ rest) ≡ ok a
lookup_first k a rest = rw eq_refl

-- What `add_node` leaves behind serves the bytes.
added :
    (text : List Version) (w : Memory)
    → Serves memory (memory.add_node text true w).1 (cid_of (length w.blocks)) text
added text w = record {
  at = ipfs_path (cid_of (length w.blocks));
  parsed = refl;
  node = text;
  later = (memory.add_node text true w).1;
  got = rw (lookup_first _ text w.blocks);
  content = refl;
}

pub memory-HostLaws : HostLaws memory
memory-HostLaws = record {
  decode_encode = λ vs text e. sym e;
  add_serves = λ text cid w w' e.
      let replied = ap (λ (r : Reply String × Memory). r.0) e in
      let c : cid_of (length w.blocks) ≡ cid = cc in
      let s = ap (λ (r : Reply String × Memory). r.1) e in
      subst₂ (λ (v : Memory) (k : String). Serves memory v k text) s c (added text w);
  IsPinned = λ w p. Mem p w.pins;
  pin_pins = λ p w w' e.
      subst (λ (v : Memory). Mem p v.pins) (ap (λ (r : Reply (Unit {0}) × Memory). r.1) e)
        mem-cons_self;
  pin_keeps = λ p q w m. mem-cons_of_mem p m;
  add_keeps = λ n pin w q m. m;
  write_read = λ name text w w' e.
      subst (λ (v : Memory). memory.read_file name v ≡ (ok text, v))
        (ap (λ (r : Reply (Unit {0}) × Memory). r.1) e) (rw (lookup_first name text w.files));
}
