-- ===== src/Chain/Checkpoints.antt =====
-- chain/checkpoints.go: the built-in checkpoints, and the choice of one by date.
pub mod Choice
use spvwallet.Prelude.{ℕ, Bool, true, false, List, [], ◌∷◌, ltb, if◌then◌else◌}
use spvwallet.Chain.Types.{BlockHeader, Params, Net, mainnet, testnet3, regtest, simnet}
use mathlib.Core.List.{reverse}

pub record Checkpoint : Type 0 where
  pub height : ℕ
  pub header : BlockHeader

-- A list that is not empty, by its first element, as `mainnetCheckpoints[0]` relies on.
pub record Checkpoints : Type 0 where
  pub first : Checkpoint
  pub later : List Checkpoint

abbrev pub mainnet_checkpoints : Checkpoints
mainnet_checkpoints = record {
  first = record {
    height = 473760;
    header = record {
      version = 536870914;
      prev_block = 0x000000000000000001389446206ebcd378c32cd00b4920a8a1ba7b540ca7d699;
      merkle_root = 0xddc4fede55aeebe6e3bfd3292145b011a4f16ead187ed90d7df0fd4c020b6ab6;
      timestamp = 1498956437;
      bits = 402754864;
      nonce = 134883004;
    };
  };
  later =
      record {
        height = 483840;
        header = record {
          version = 536870912;
          prev_block = 0x000000000000000000d0ad638ad61e7c4c3113618b8b26b2044347c00c042278;
          merkle_root = 0x87b940030e48d97625b923c3ebc0626c2cb1123b78135380306eb6dcfd50703c;
          timestamp = 1504704195;
          bits = 402731275;
          nonce = 1775134070;
        };
      }
      ∷ record {
        height = 536256;
        header = record {
          version = 536870912;
          prev_block = 0x00000000000000000000943de85f4495f053ff55f27d135edc61c27990c2eec5;
          merkle_root = 0x167bf70981d49388d07881b1a448ff9b79cf2a32716e45c535345823d8cdd541;
          timestamp = 1533980459;
          bits = 388763047;
          nonce = 1545867530;
        };
      }
      ∷ [];
}

abbrev pub testnet3_checkpoints : Checkpoints
testnet3_checkpoints = record {
  first = record {
    height = 1151136;
    header = record {
      version = 536870912;
      prev_block = 0x0000000000001e8cdb2d98471a5c60bdbddbe644b9ad08e17a97b3a7dce1e332;
      merkle_root = 0xf675c565b293be2ad808b01b0a763557c8874e4aefe7f2eea0dab91b1f60ec45;
      timestamp = 1498950206;
      bits = 436724869;
      nonce = 2247874206;
    };
  };
  later =
      record {
        height = 1276128;
        header = record {
          version = 536870912;
          prev_block = 0x000000000003e8e7755d9b8299b28c71d9f0e18909f25bc9f3eeec3464ece1dd;
          merkle_root = 0x7b91fe22059063bcbb1cfac6fd376cf459f4387d1bc1989989252495b06b52be;
          timestamp = 1517822323;
          bits = 453210804;
          nonce = 2456211891;
        };
      }
      ∷ record {
        height = 1382976;
        header = record {
          version = 536870912;
          prev_block = 0x000000000000006d4025181f5b54cca6d730cc26313817c6529ba9ed62cc83b3;
          merkle_root = 0x67b8699931cc1f02e7593b0a504f406b0be1bf29cb66b41455ea7b26d4043937;
          timestamp = 1533934105;
          bits = 425273147;
          nonce = 1715685244;
        };
      }
      ∷ [];
}

-- The loop from the last checkpoint down, over the reversed list.
unfoldable pub latest_before : ℕ → List Checkpoint → Checkpoint → Checkpoint
latest_before date [] otherwise = otherwise
latest_before date (c ∷ cs) otherwise =
    let rest = latest_before date cs otherwise in if ltb c.header.timestamp date then c else rest

unfoldable pub choose : ℕ → Checkpoints → Checkpoint
unfolding latest_before
choose date cs = latest_before date (reverse (cs.first ∷ cs.later)) cs.first

-- The genesis header of the regression network is btcd's; its height is 0.
unfoldable pub get_checkpoint : BlockHeader → ℕ → Params → Checkpoint
unfolding choose
get_checkpoint genesis creation_date p = elim p.name [
  | mainnet ↦ choose creation_date mainnet_checkpoints
  | testnet3 ↦ choose creation_date testnet3_checkpoints
  | _ ↦ record { height = 0; header = genesis }
]
