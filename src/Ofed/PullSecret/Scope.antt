-- ===== src/Ofed/PullSecret/Scope.antt =====
-- About stagingDockerConfigJSON: which credentials it copies.
use nvidia_ci.Common.{
  true, ◌≡◌, sym, ap, ◌∙◌, subst, inl, inr, ◌↔◌, [], ◌∷◌, some, false-ne-true, Has, Bool-cases,
}
use nvidia_ci.Text.{Text}
use nvidia_ci.Text.Labels.Distinct.{IsMap}
use nvidia_ci.Ofed.PullSecret.Host.{NamesStaging}
use nvidia_ci.Ofed.PullSecret.Defs.{
  DockerAuthEntry, Auths, Codec, is_staging_registry_host, scoped_auths,
}

-- An entry is copied exactly when it stands in the configuration under a staging host.
pub scoped_auths_iff :
    (auths : Auths) (key : Text) (entry : DockerAuthEntry)
    → Has (key, entry) (scoped_auths auths)
      ↔ (Has (key, entry) auths × (is_staging_registry_host key ≡ true))
unfolding scoped_auths
scoped_auths_iff [] key entry = (λ h. absurd h, λ h. absurd h.0)
scoped_auths_iff ((k, e) ∷ auths) key entry =
    let ih = scoped_auths_iff auths key entry in
    elim (Bool-cases (is_staging_registry_host k)) [
      | inl staging ↦ rw staging (
        λ h. elim h [
          | inl s ↦ (
            inl s,
            subst (λ x. is_staging_registry_host x ≡ true)
                (sym (ap (λ (p : Text × DockerAuthEntry). p.0) s)) staging,
          )
          | inr later ↦ (inr (ih.0 later).0, (ih.0 later).1)
        ],
        λ h. elim h.0 [ inl s ↦ inl s | inr later ↦ inr (ih.1 (later, h.1)) ],
      )
      | inr other ↦ rw other (
        λ h. (inr (ih.0 h).0, (ih.0 h).1),
        λ h. elim h.0 [
          | inl s ↦ absurd (
              false-ne-true (
                sym other
                ∙ subst (λ x. is_staging_registry_host x ≡ true)
                    (ap (λ (p : Text × DockerAuthEntry). p.0) s) h.1))
          | inr later ↦ ih.1 (later, h.1)
        ],
      )
    ]

-- encoding/json: a document that is read gives a map with distinct keys; and a map of entries out of a
-- document that was read, if it is written, is read back, in some order.
pub record IsFaithful (codec : Codec) : Type 0 where
  pub distinct : (raw : Text) (auths : Auths) → codec.unmarshal raw ≡ some auths → IsMap auths
  pub reads_back :
      (raw text : Text) (document auths : Auths)
      → codec.unmarshal raw ≡ some document
      → ((key : Text) (entry : DockerAuthEntry)
          → Has (key, entry) auths
          → Has (key, entry) document)
      → IsMap auths
      → codec.marshal auths ≡ some text
      → (read : Auths) × (codec.unmarshal text ≡ some read)
        × ((key : Text) (entry : DockerAuthEntry) → Has (key, entry) read ↔ Has (key, entry) auths)

-- The text `out` holds exactly the staging credentials of the configuration `raw`.
pub record IsScoped (codec : Codec) (raw out : Text) : Type 0 where
  pub auths : Auths
  pub unmarshalled : codec.unmarshal raw ≡ some auths
  pub copied : Auths
  pub reads : codec.unmarshal out ≡ some copied
  pub exactly :
      (key : Text) (entry : DockerAuthEntry)
      → Has (key, entry) copied ↔ (Has (key, entry) auths × NamesStaging key)
  pub distinct : IsMap copied
