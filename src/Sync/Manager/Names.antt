-- ===== src/Sync/Manager/Names.antt =====
-- The texts that name a source.
use nanci.Prelude.{◌≡◌, refl, ap, ◌∙◌, ◌↔◌, inl, inr, true, [], ◌∷◌, ◌⊎◌, some, Bool-cases}
use nanci.Text.{Bytes, codes, bytes_eq, bytes_eq-eq}
use nanci.Sync.Types.{SyncSource, nfse, nfe, cte}
use nanci.Sync.Manager.{source_text, parse_sync_source, resolve_sync_source}

parse_sync_source-source_text : (s : SyncSource) → parse_sync_source (source_text s) ≡ some s
unfolding parse_sync_source
parse_sync_source-source_text nfse = refl
parse_sync_source-source_text nfe = refl
parse_sync_source-source_text cte = refl

parse_sync_source_sound :
    (text : Bytes) (s : SyncSource) → parse_sync_source text ≡ some s → text ≡ source_text s
unfolding parse_sync_source
parse_sync_source_sound text s h = elim (Bool-cases (bytes_eq text (codes "nfse"))) [
  | inl a ↦ named text nfse s a (rw a at h)
  | inr a ↦ elim (Bool-cases (bytes_eq text (codes "nfe"))) [
    | inl b ↦ named text nfe s b (rw (a, b) at h)
    | inr b ↦ elim (Bool-cases (bytes_eq text (codes "cte"))) [
      | inl c ↦ named text cte s c (rw (a, b, c) at h)
      | inr c ↦ absurd (cc (rw (a, b, c) at h))
    ]
  ]
]
  where
    named :
        (text : Bytes) (t s : SyncSource)
        → bytes_eq text (source_text t) ≡ true
        → some t ≡ some s
        → text ≡ source_text s
    named text t s e same =
        let there : t ≡ s = cc in rw (← there) (bytes_eq-eq text (source_text t) e)

-- An absent name is the NFS-e, and any other names a source exactly when it is the text of that source.
pub resolve_sync_source-source_text :
    (text : Bytes) (s : SyncSource)
    → (resolve_sync_source text ≡ some s) ↔ (((text ≡ []) × (s ≡ nfse)) ⊎ (text ≡ source_text s))
unfolding resolve_sync_source
resolve_sync_source-source_text [] s =
    (λ h. inl (refl, cc), λ h. elim h [ inl (e, same) ↦ rw same refl | inr e ↦ absurd (empty s e) ])
  where
    empty : (s : SyncSource) → [] ≡ source_text s → ⊥
    empty nfse e = cc
    empty nfe e = cc
    empty cte e = cc
resolve_sync_source-source_text (c ∷ text) s = (
  λ h. inr (parse_sync_source_sound (c ∷ text) s h),
  λ h. elim h [
    | inl (e, same) ↦ absurd (cc)
    | inr e ↦ ap parse_sync_source e ∙ parse_sync_source-source_text s
  ],
)
