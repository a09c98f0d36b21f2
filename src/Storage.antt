-- ===== src/Storage.antt =====
-- storage/: the files in which the requests and the waiting pools outlive the process, and the parts
-- of NewBridgeService (bridge/bridge_service.go) that read and write them.
pub mod Restart
pub mod Refill
pub mod Indexed
pub mod Saved
pub mod Restored
use joltifychain_bridge.Base.{
  Bool, true, false, Option, none, some, List, [], ◌∷◌, Text, codes, ◌≡◌, if◌then◌else◌,
}
use joltifychain_bridge.Base.SyncMap.{SyncMap, load, store}
use joltifychain_bridge.Base.Outcome.{
  Outcome, ok, err, panic, Done, Fault, no_file, bad_json, empty_list,
}

-- json.Marshal and json.Unmarshal of a list, whose items are encoded by third-party code. What a
-- file holds is a `Buf`; an error of Unmarshal comes with the items that it read before.
pub record Codec (Buf A : Type 0) : Type 0 where
  pub marshal : List A → Outcome Buf
  pub unmarshal : Buf → List A × Outcome Done
  -- the nil slice of a read that failed
  pub no_bytes : Buf
  -- what was marshalled can be read back
  pub unmarshal-marshal :
      (xs : List A) (buf : Buf) → marshal xs ≡ ok buf → unmarshal buf ≡ (xs, ok tt)

-- the files of the home folder, by their names
abbrev pub Files : Type 0 → Type 0
Files Buf = SyncMap Buf

-- os.WriteFile: a failed one leaves some content, or the file as it was
pub data Written (Buf : Type 0) : Type 0 where
  all_written : Written Buf
  write_failed : Fault → Option Buf → Written Buf

module _ {Buf : Type 0} where
  unfoldable pub write_file : Text → Buf → Written Buf → Files Buf → Outcome Done × Files Buf
  write_file name buf all_written files = (ok tt, store name buf files)
  write_file name buf (write_failed e (some left)) files = (err e, store name left files)
  write_file name buf (write_failed e none) files = (err e, files)

  module _ {A : Type 0} (codec : Codec Buf A) where
    unfoldable pub save_marshalled :
        Text → Outcome Buf → Written Buf → Files Buf → Outcome Done × Files Buf
    unfolding write_file
    save_marshalled name (ok buf) written files = write_file name buf written files
    save_marshalled name (err e) written files = (err e, files)
    save_marshalled name panic written files = (panic, files)

    -- SaveOutBoundState, SaveInBoundState and SavePendingItems, by the name of the file
    unfoldable pub save_state : Text → List A → Written Buf → Files Buf → Outcome Done × Files Buf
    unfolding save_marshalled
    save_state name reqs written files = save_marshalled name (codec.marshal reqs) written files

    unfoldable pub load_read : Option Buf → Outcome Done → List A × Outcome Done
    load_read none read = ([], err no_file)
    load_read (some buf) (err e) = ([], err e)
    load_read (some buf) panic = ([], panic)
    load_read (some buf) (ok done) = codec.unmarshal buf

    -- LoadOutBoundState and LoadInBoundState: the items, of which nil is the empty list, and the
    -- error
    unfoldable pub load_state : Bool → Text → Outcome Done → Files Buf → List A × Outcome Done
    unfolding load_read
    load_state empty_folder name read files =
        if empty_folder then ([], err no_file) else load_read (load name files) read

    unfoldable pub pending_read : Option Buf → Outcome Done → List A
    pending_read none read = []
    pending_read (some buf) (err e) = (codec.unmarshal codec.no_bytes).0
    pending_read (some buf) panic = []
    pending_read (some buf) (ok done) = (codec.unmarshal buf).0

    -- LoadPendingItems: only an empty folder is an error; a file that cannot be read is decoded as
    -- an empty one
    unfoldable pub load_pending_items : Bool → Text → Outcome Done → Files Buf → Outcome (List A)
    unfolding pending_read
    load_pending_items empty_folder name read files =
        if empty_folder then err no_file else ok (pending_read (load name files) read)

abbrev pub outbound_file : Text
outbound_file = codes "outboundtx.dat"

abbrev pub inbound_file : Text
inbound_file = codes "inboundtx.dat"

abbrev pub move_fund_file : Text
move_fund_file = codes "movefundpending_pub.dat"
