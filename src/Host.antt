-- ===== src/Host.antt =====
-- What core/ipfs.go and core/dorothy.go call and the repository does not hold: the JSON codec, kubo
-- and boxo, and the operating system, as operations on a state `World`. The laws are the documented
-- behaviour that the theorems rely on.
pub mod Memory
use Prim.Native.String.{◌++◌}
use dorothy.Base.{String, ◌≡◌, Option, some, Bool, true, List}
use dorothy.Version.{Version, Time}
use dorothy.Outcome.{Reply, ok}

-- `"/ipfs/" + hash`
abbrev pub ipfs_path : String → String
ipfs_path hash = "/ipfs/" ++ hash

pub record Host : Type 1 where
  pub World : Type 0
  -- the bytes of a manifest file
  pub Bytes : Type 0
  -- boxo: `files.Node`, `path.Path`
  pub FileNode : Type 0
  pub CidPath : Type 0
  -- `json.NewEncoder(w).Encode(manifest)` and `Decode`
  pub encode : List Version → Reply Bytes
  pub decode : Bytes → Reply (List Version)
  pub new_path : String → Reply CidPath
  -- `files.NewReaderFile`, and the bytes behind `files.ToFile`
  pub reader_file : Bytes → FileNode
  pub to_file : FileNode → Option Bytes
  -- `Unixfs().Add` with the option `Pin`, answering the root CID; `Unixfs().Get`; `Pin().Add`
  pub add_node : FileNode → Bool → World → Reply String × World
  pub get_node : CidPath → World → Reply FileNode × World
  pub pin_add : CidPath → World → Reply (Unit {0}) × World
  -- `Routing().FindPeer`, `Swarm().Connect`
  pub find_peer : String → World → Reply String × World
  pub swarm_connect : String → World → Reply (Unit {0}) × World
  -- `files.WriteTo`, `os.Stat(path).IsDir()`, `files.NewSerialFile` after its `os.Stat`,
  -- `files.NewSliceDirectory`, `filepath.Base`
  pub write_to : FileNode → String → World → Reply (Unit {0}) × World
  pub is_dir : String → World → Reply Bool × World
  pub serial_file : String → World → Reply FileNode × World
  pub slice_directory : List (String × FileNode) → FileNode
  pub base : String → String
  -- `filepath.Join`
  pub join : String → String → String
  -- `os.WriteFile`, `os.ReadFile`, `time.Now`
  pub write_file : String → String → World → Reply (Unit {0}) × World
  pub read_file : String → World → Reply String × World
  pub now : World → Time

module _ (h : Host) where
  open h use {
    World, Bytes, CidPath, encode, decode, new_path, reader_file, to_file, add_node, get_node,
    pin_add, write_file, read_file,
  }

  -- Bytes that the node has added is served under its CID.
  pub record Serves (w : World) (cid : String) (text : Bytes) : Type 0 where
    pub at : CidPath
    pub parsed : new_path (ipfs_path cid) ≡ ok at
    pub node : h.FileNode
    pub later : World
    pub got : get_node at w ≡ (ok node, later)
    pub content : to_file node ≡ some text

  pub record HostLaws : Type 1 where
    -- encoding/json reads back what it wrote
    pub decode_encode :
        (vs : List Version) (text : Bytes) → encode vs ≡ ok text → decode text ≡ ok vs
    -- kubo serves what was added
    pub add_serves :
        (text : Bytes) (cid : String) (w w' : World)
        → add_node (reader_file text) true w ≡ (ok cid, w')
        → Serves w' cid text
    -- pins last: `Pin().Add` makes one, and neither it nor `Unixfs().Add` drops another
    pub IsPinned : World → CidPath → Type 0
    pub pin_pins : (p : CidPath) (w w' : World) → pin_add p w ≡ (ok tt, w') → IsPinned w' p
    pub pin_keeps : (p q : CidPath) (w : World) → IsPinned w q → IsPinned (pin_add p w).1 q
    pub add_keeps :
        (n : h.FileNode) (pin : Bool) (w : World) (q : CidPath)
        → IsPinned w q
        → IsPinned (add_node n pin w).1 q
    -- a file that was written is read back
    pub write_read :
        (name text : String) (w w' : World)
        → write_file name text w ≡ (ok tt, w')
        → read_file name w' ≡ (ok text, w')
