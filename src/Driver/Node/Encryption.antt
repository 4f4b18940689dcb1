-- ===== src/Driver/Node/Encryption.antt =====
-- Encryption from CreateVolume to NodePublishVolume: the volume context that pkg/utils/parser.go
-- writes, pkg/driver/controller.go returns and pkg/driver/node.go reads.
use panfs_container_storage.Base.{
  String, ◌≡◌, ◌≢◌, refl, ◌⊎◌, inl, inr, true, false, none, some, List, [], ◌∷◌, arith, eq_refl, ap,
  sym, ◌∙◌,
}
use panfs_container_storage.Base.Texts.{Text, str_eq-cases}
use panfs_container_storage.Base.GoMap.{lookup}
use panfs_container_storage.Utils.Context.{get_sc_key}
use panfs_container_storage.Utils.Parser.{Volume, volume_context}
use panfs_container_storage.Driver.Csi.{
  reply, VolumeCapability, CreateVolumeRequest, CsiVolume, NodePublishVolumeRequest,
}
use panfs_container_storage.Driver.Controller.{created_volume, create_volume}
use panfs_container_storage.Driver.Controller.Outcomes.{Provides, create_volume-reply}
use panfs_container_storage.Driver.Mounter.{PanMounter}
use panfs_container_storage.Driver.Node.{
  Os, Event, mounted, mount_options, is_encrypted, node_publish_volume,
}
use panfs_container_storage.Driver.Node.Publish.{IsPublishable, source_of}
use panfs_container_storage.Driver.Node.Trace.{IsEncryptedMount, node_publish_volume-reply}
use panfs_container_storage.Driver.Provider.{StorageProvider}

-- The encryption that the realm lists for a volume is not one of the two values for no encryption.
abbrev pub IsEncrypted : Volume → Type 0
IsEncrypted vol = (vol.encryption ≢ "") × (vol.encryption ≢ "none")

is_encrypted-cases :
    (vol : Volume)
    → ((is_encrypted (some (volume_context vol)) ≡ true) × IsEncrypted vol)
      ⊎ ((is_encrypted (some (volume_context vol)) ≡ false) × (¬ IsEncrypted vol))
unfolding is_encrypted volume_context lookup
is_encrypted-cases vol = elim (str_eq-cases vol.encryption "") [
  | inl (t, same) ↦ inr (rw t refl, λ (e, _). e same)
  | inr (f, set) ↦ elim (str_eq-cases vol.encryption "none") [
    | inl (t, same) ↦ inr (ground (arith, eq_refl (get_sc_key "encryption")), λ (_, e). e same)
    | inr (g, other) ↦ inl (ground (arith, eq_refl (get_sc_key "encryption")), (set, other))
  ]
]

created_context :
    (name : String) (vol : Volume) → (created_volume name vol).volume_context ≡ volume_context vol
unfolding created_volume
created_context name vol = refl

-- A volume that CreateVolume returned, published with the context that it returned: a successful
-- publication goes through the KMIP configuration exactly when the volume that the provider lists
-- has an encryption other than "none" and the empty one, so "off" counts as encrypted.
pub created-published :
    (P : StorageProvider) (show : VolumeCapability → Text) (made : CreateVolumeRequest)
    (p p' : P.State) (v : CsiVolume)
    → create_volume P show made p ≡ (reply v, p')
    → (M : PanMounter) (os : Os) (req : NodePublishVolumeRequest) (s s' : M.State)
      (events : List Event)
    → req.volume_context ≡ some v.volume_context
    → node_publish_volume M os req s ≡ (reply tt, events, s')
    → (vol : Volume) × Provides P made p vol p'
      × (c : VolumeCapability) × IsPublishable req c
      × (((¬ IsEncrypted vol)
            × (events ≡ mounted (source_of req) req.target_path (mount_options req c) none ∷ []))
          ⊎ (IsEncrypted vol × IsEncryptedMount M os req (mount_options req c) events s s'))
created-published P show made p p' v h M os req s s' events context published =
    let (_, (vol, provided, same)) = create_volume-reply P made show p p' v h in
    let (c, publishable, ways) = node_publish_volume-reply M os req s s' events published in
    let listed : req.volume_context ≡ some (volume_context vol) =
      context
      ∙ ap (λ (w : CsiVolume). some w.volume_context) (sym same)
      ∙ ap some (created_context made.name vol) in
    (
      vol,
      provided,
      c,
      publishable,
      elim ways [
        | inl (plain, _, calls) ↦ elim (is_encrypted-cases vol) [
          | inl (e, _) ↦ absurd (cc listed)
          | inr (_, clear) ↦ inl (clear, calls)
        ]
        | inr (secret, mount) ↦ elim (is_encrypted-cases vol) [
          | inl (_, encrypted) ↦ inr (encrypted, mount)
          | inr (e, _) ↦ absurd (cc listed)
        ]
      ],
    )
