-- ===== src/RootChain/Resumes.antt =====
-- core/rootchain.go: the events of one block, read again after an interruption.
use plasma.Bytes.{Bytes}
use plasma.Prelude.{Option, List, [], ◌∷◌, ◌++◌}
use plasma.RootChain.{ContractEvent, EventCodec, Handlers}
use plasma.RootChain.Events.{EventLoop}
use plasma.RootChain.Steps.{event_key, Surroundings}
use plasma.Store.{Write, Database}
use plasma.Store.Laws.{IsStore, View}

module _ {S W : Type 0} (d : Database S) (c : EventCodec) (handlers : Handlers S W)
    (Models : S → View → Option (List Write) → Type 0) (Fit : ContractEvent → Type 0)
    (Does : ContractEvent → W → W → Type 0) where
  module _ (store : IsStore d Models) (around : Surroundings d c handlers Models Fit Does) where
    -- the variables once `e` is handled
    abbrev handled_to : S → W → ContractEvent → EventLoop S W → EventLoop S W
    handled_to s w e l = record l {
      store = (s, w);
      block_num = e.block_num;
      hash_list = l.hash_list ++ event_key c e ∷ [];
    }
