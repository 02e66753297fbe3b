-- ===== src/Genesis.antt =====
-- core/genesis.go: the first block. The chain configurations of go-ethereum are a parameter, `Cfg`;
-- a genesis' allocation, which nothing here reads, is left out, and so are its JSON forms.
pub mod Setup
use plasma.Bytes.{Hash, Address, zero_hash, Bytes}
use plasma.Prelude.{ℕ, Bool, true, false, not, Option, none, some, [], ◌∷◌, ◌==◌, if◌then◌else◌}
use plasma.Prelude.Outcome.{genesis_mismatch, external, Outcome, ok, panic, ◌>>=◌, ◌>>◌, Error}
use plasma.RawDb.Accessors.{
  write_head_block_hash, write_head_header_hash, write_block, write_canonical_hash,
  read_canonical_hash,
}
use plasma.Store.{Database}
use plasma.Types.Block.{number_u64, Block}
use plasma.Types.External.{new_block, block_hash, External}

-- params.MainnetChainConfig and params.AllEthashProtocolChanges
pub record Configs (Cfg : Type 0) : Type 0 where
  pub mainnet : Cfg
  pub all_ethash : Cfg

pub record Genesis (Cfg : Type 0) : Type 0 where
  pub config : Option Cfg
  pub nonce : ℕ
  pub timestamp : ℕ
  pub extra_data : Bytes
  pub coinbase : Address
  pub number : ℕ
  pub parent_hash : Hash

-- 0x11bbe8db4e347b4e8c937c1c8370e4b5ed33adb3db69cbdb7a38e1e50b1b82fa
abbrev mainnet_extra_data : Bytes
mainnet_extra_data =
    17 ∷ 187 ∷ 232 ∷ 219 ∷ 78 ∷ 52 ∷ 123 ∷ 78 ∷ 140 ∷ 147 ∷ 124 ∷ 28 ∷ 131 ∷ 112 ∷ 228 ∷ 181 ∷ 237
    ∷ 51 ∷ 173 ∷ 179 ∷ 219 ∷ 105 ∷ 203 ∷ 219 ∷ 122 ∷ 56 ∷ 225 ∷ 229 ∷ 11 ∷ 27 ∷ 130 ∷ 250 ∷ []

-- `DefaultGenesisBlock`
unfoldable pub default_genesis_block : {Cfg : Type 0} → Configs Cfg → Genesis Cfg
default_genesis_block configs = record {
  config = some configs.mainnet;
  nonce = 66;
  timestamp = 0;
  extra_data = mainnet_extra_data;
  coinbase = 0;
  number = 0;
  parent_hash = zero_hash;
}

module _ (x : External) where
  -- `ToBlock`, which does not use the database it is given
  unfoldable pub to_block : {Cfg : Type 0} → Genesis Cfg → Block
  to_block g =
      new_block x
        (record {
          parent_hash = g.parent_hash;
          coinbase = g.coinbase;
          tx_hash = zero_hash;
          number = g.number;
          time = g.timestamp;
          extra = g.extra_data;
        })
        []

  module _ {S : Type 0} (d : Database S) where
    -- the writes of `Commit`, whose errors are only logged
    unfoldable pub write_genesis : Block → S → S
    write_genesis b s =
        let hash = block_hash x b in
        let s1 = write_canonical_hash d hash (number_u64 b) (write_block d x b s) in
        write_head_header_hash d hash (write_head_block_hash d hash s1)

    -- `Commit`; without a block the error is a text of its own
    unfoldable pub commit : {Cfg : Type 0} → Genesis Cfg → S → (Option Block × Option Error) × S
    unfolding write_genesis to_block
    commit g s =
        let b = to_block g in
        if not (b.header.number == 0)
        then ((none, some external), s)
        else ((some b, none), write_genesis b s)

    -- `MustCommit`
    unfoldable pub must_commit : {Cfg : Type 0} → Genesis Cfg → S → Outcome (Block × S)
    unfolding commit
    must_commit g s =
        let done = commit g s in elim done.0.0 [ none ↦ panic | some b ↦ ok (b, done.1) ]

    module _ {Cfg : Type 0} (configs : Configs Cfg) where
      -- the configuration, the hash and the error that `SetupGenesisBlock` returns
      abbrev pub Setup : Type 0
      Setup = Outcome ((Option Cfg × Hash × Option Error) × S)

      -- `block.Hash()` of the block that `Commit` returned: a nil one panics
      unfoldable pub committed : Option Cfg → (Option Block × Option Error) × S → Setup
      committed config ((none, error), s) = panic
      committed config ((some b, error), s) = ok ((config, block_hash x b, error), s)

      unfoldable pub setup_with : Hash → Option (Genesis Cfg) → S → Setup
      unfolding commit to_block committed default_genesis_block
      setup_with stored none s =
          if stored == zero_hash
          then (let g = default_genesis_block configs in committed g.config (commit g s))
          else ok ((some configs.mainnet, zero_hash, none), s)
      setup_with stored (some g) s =
          if stored == zero_hash
          then committed g.config (commit g s)
          else if not (block_hash x (to_block g) == stored)
          then ok ((g.config, block_hash x (to_block g), some genesis_mismatch), s)
          else ok ((some configs.mainnet, zero_hash, none), s)

      -- a genesis that is given, without a configuration
      unfoldable pub lacks_config : Option (Genesis Cfg) → Bool
      lacks_config none = false
      lacks_config (some g) = elim g.config [ none ↦ true | some config ↦ false ]

      unfoldable pub setup_genesis_block : Option (Genesis Cfg) → S → Setup
      unfolding setup_with lacks_config
      setup_genesis_block genesis s =
          if lacks_config genesis
          then ok ((some configs.all_ethash, zero_hash, some external), s)
          else setup_with (read_canonical_hash d 0 s) genesis s
