-- ===== src/Storage/Saved.antt =====
-- The three files after they have been written.
use joltifychain_bridge.Base.{◌≡◌, refl, ◌∙◌, ap, false, some, List, Text, text_eq}
use joltifychain_bridge.Base.SyncMap.{load, store}
use joltifychain_bridge.Base.SyncMap.Laws.{load-store}
use joltifychain_bridge.Base.Outcome.{ok}
use joltifychain_bridge.Storage.{
  Codec, Files, all_written, save_state, load_state, load_pending_items, outbound_file,
  inbound_file, move_fund_file,
}

module _ {Buf A : Type 0} (codec : Codec Buf A) (name : Text) (xs : List A) (buf : Buf)
    (files : Files Buf) where
  pub save_state_lem :
      codec.marshal xs ≡ ok buf
      → save_state codec name xs all_written files ≡ (ok tt, store name buf files)
  unfolding save_state
  save_state_lem e = rw e refl

  pub load_state_lem :
      codec.marshal xs ≡ ok buf
      → load name files ≡ some buf
      → load_state codec false name (ok tt) files ≡ (xs, ok tt)
  unfolding load_state
  load_state_lem e found = rw found (codec.unmarshal-marshal xs buf e)

  pub load_pending_lem :
      codec.marshal xs ≡ ok buf
      → load name files ≡ some buf
      → load_pending_items codec false name (ok tt) files ≡ ok xs
  unfolding load_pending_items
  load_pending_lem e found = rw found (ap (λ p. ok p.0) (codec.unmarshal-marshal xs buf e))

module _ {Buf : Type 0} (a b c : Buf) (files : Files Buf) where
  abbrev pub saved : Files Buf
  saved = store move_fund_file c (store inbound_file b (store outbound_file a files))

  pub saved_outbound : load outbound_file saved ≡ some a
  unfolding text_eq
  saved_outbound =
      load-store move_fund_file outbound_file c _
      ∙ load-store inbound_file outbound_file b _
      ∙ load-store outbound_file outbound_file a files

  pub saved_inbound : load inbound_file saved ≡ some b
  unfolding text_eq
  saved_inbound =
      load-store move_fund_file inbound_file c _ ∙ load-store inbound_file inbound_file b _

  pub saved_move_fund : load move_fund_file saved ≡ some c
  unfolding text_eq
  saved_move_fund = load-store move_fund_file move_fund_file c _
