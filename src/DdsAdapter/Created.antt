-- ===== src/DdsAdapter/Created.antt =====
-- What `DDSAdapterPublishers::init` in src/dds_adapter_publishers.cpp of plugins/advrf_cyclonedds_plugin
-- creates and returns.
use ecat_middleware_advr.Prelude.{
  ℕ, ◌≡◌, Bool, true, false, ◌&&◌, List, [], ◌∷◌, ◌++◌, none, some, Text, is_empty,
}
use ecat_middleware_advr.Channel.{ChannelRx}
use ecat_middleware_advr.Discover.{EcatMap}
use ecat_middleware_advr.Pdo.Ids.{find_name}
use ecat_middleware_advr.DdsAdapter.{Registration, ids_on, SingleKind, single_channel}

-- The IDs on channels, channel by channel.
unfoldable pub ids_on_all : EcatMap → List ChannelRx → List ℕ
ids_on_all ecat_map [] = []
ids_on_all ecat_map (channel ∷ channels) = ids_on ecat_map channel ++ ids_on_all ecat_map channels

-- A registration is for the discovered devices of its channels, of which there are some.
abbrev pub IsExact : EcatMap → Registration → Type 0
IsExact ecat_map r = (r.ids ≡ ids_on_all ecat_map r.channels) × (is_empty r.ids ≡ false)

-- At most one device, and that one with a name.
unfoldable pub supported : List (ℕ × Text) → List ℕ → Bool
supported names [] = true
supported names (id ∷ []) = elim (find_name names id) [ some name ↦ true | none ↦ false ]
supported names (id ∷ other ∷ rest) = false

-- Every kind is supported.
unfoldable pub all_supported : List (ℕ × Text) → EcatMap → List SingleKind → Bool
all_supported names ecat_map [] = true
all_supported names ecat_map (kind ∷ kinds) =
    supported names (ids_on ecat_map (single_channel kind)) && all_supported names ecat_map kinds
