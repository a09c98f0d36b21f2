-- ===== src/CosSend/TxConfig.antt =====
-- What cosmos-sdk and the signing service do for a transaction: parameters of the model.
use joltifychain_bridge.Base.{ℕ, Bool, Option, List, Text}
use joltifychain_bridge.Base.Outcome.{Outcome}
use joltifychain_bridge.Signatures.Serialize.{Signature}

-- signing.SignatureV2; none is the nil signature
pub record SignatureV2 : Type 0 where
  pub pub_key : Text
  pub signature : Option Text
  pub sequence : ℕ

-- keysign.Response: whether its status is Success, and the signatures
pub record KeysignResponse : Type 0 where
  pub success : Bool
  pub signatures : List Signature

-- client.TxConfig with its builders, and the functions that it is used with
pub record TxConfig : Type 1 where
  pub TxBuilder : Type 0
  pub Msg : Type 0
  -- NewTxBuilder and SetMsgs
  pub set_msgs : List Msg → Outcome TxBuilder
  pub set_gas_limit : ℕ → TxBuilder → TxBuilder
  pub set_signatures : SignatureV2 → TxBuilder → Outcome TxBuilder
  -- GetSignBytes, for an account number and a sequence
  pub get_sign_bytes : ℕ → ℕ → TxBuilder → Outcome Text
  pub encode_tx : TxBuilder → Outcome Text
  -- crypto.Sha256
  pub sha256 : Text → Text
  -- legacybech32.UnmarshalPubKey
  pub unmarshal_pub_key : Text → Outcome Text
  -- the order of the curve
  pub order : ℕ

-- the response to a broadcast: its code and the hash
pub record TxResponse : Type 0 where
  pub code : ℕ
  pub tx_hash : Text

-- What a transaction asks its surroundings.
pub record TxAnswers : Type 0 where
  -- the public key of the key "operator" in the keyring
  pub operator_key : Outcome Text
  -- Simulate: the gas used
  pub simulate : Text → Outcome ℕ
  -- KeySign of the signing service, for a key and the messages
  pub key_sign : Text → List Text → Outcome KeysignResponse
  -- Keyring.Sign with the key "operator": the signature and the key
  pub keyring_sign : Text → Outcome (Text × Text)
  -- the sequences that waitAndSend sees until it gives up, for a target
  pub sequences : ℕ → List (Outcome ℕ)
  pub broadcast : Text → Outcome TxResponse
