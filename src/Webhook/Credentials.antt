-- ===== src/Webhook/Credentials.antt =====
-- operator/internal/webhook/injector/keycloak_client_credentials.go, and `volumeExists` of pod_mutator.go. Of
-- a pod the volumes and the mounts of its containers are kept, of a volume's source that of a secret.
use kagenti_operator.Prelude.{
  ◌≡◌, ◌↔◌, inl, inr, refl, sym, ap, ◌∙◌, Bool, true, false, not, ◌&&◌, ◌||◌, Text, lit, beq,
  beq_iff, is_empty, Bool-cases, List, [], ◌∷◌, ◌++◌, if◌then◌else◌, arith,
}
use kagenti_operator.GoMap.{GoMap}
use kagenti_operator.Webhook.Preset.{trim_space}
use kagenti_operator.Workload.ClientReg.{label}

pub record VolumeMount : Type 0 where
  pub name : Text
  pub mount_path : Text
  pub sub_path : Text
  pub read_only : Bool

pub record Container : Type 0 where
  pub name : Text
  pub volume_mounts : List VolumeMount

pub data VolumeSource : Type 0 where
  secret : (secret_name : Text) (optional : Bool) → VolumeSource
  other_source : Text → VolumeSource

pub record Volume : Type 0 where
  pub name : Text
  pub source : VolumeSource

pub record PodSpec : Type 0 where
  pub volumes : List Volume
  pub containers : List Container

unfoldable pub volume_exists : List Volume → Text → Bool
volume_exists [] name = false
volume_exists (v ∷ l) name = beq v.name name || volume_exists l name

unfoldable pub volume_mount_exists : List VolumeMount → Text → Bool
volume_mount_exists [] volume_name = false
volume_mount_exists (m ∷ l) volume_name =
    beq m.name volume_name || volume_mount_exists l volume_name

unfoldable pub has_credentials_mount : List VolumeMount → (volume_name mount_path : Text) → Bool
has_credentials_mount [] volume_name mount_path = false
has_credentials_mount (m ∷ l) volume_name mount_path =
    (beq m.name volume_name && beq m.mount_path mount_path)
    || has_credentials_mount l volume_name mount_path

abbrev pub id_path : Text
id_path = lit "/shared/client-id.txt"

abbrev pub secret_path : Text
secret_path = lit "/shared/client-secret.txt"

abbrev pub is_mounted : Container → Text → Bool
is_mounted c vol =
    has_credentials_mount c.volume_mounts vol secret_path
    && has_credentials_mount c.volume_mounts vol id_path

abbrev pub shares_data : Container → Bool
shares_data c = volume_mount_exists c.volume_mounts (lit "shared-data")

-- strings.TrimSpace(annotations[AnnotationKeycloakClientSecretName])
abbrev pub secret_name_in : GoMap Text → Text
secret_name_in annotations =
    trim_space (label annotations (lit "rossoctl.io/keycloak-client-credentials-secret-name"))

unfoldable pub container_needs_patch : List Container → Text → Bool
container_needs_patch [] vol = false
container_needs_patch (c ∷ l) vol =
    if shares_data c && not (is_mounted c vol) then true else container_needs_patch l vol

-- NeedsKeycloakClientCredentialsVolumePatch
unfoldable pub needs_volume_patch : PodSpec → GoMap Text → Bool
unfolding container_needs_patch volume_exists
needs_volume_patch spec annotations =
    let vol = secret_name_in annotations in
    if is_empty vol
    then false
    else if not (volume_exists spec.volumes vol)
    then true
    else container_needs_patch spec.containers vol

unfoldable pub append_sub_path_mount :
    List VolumeMount → (vol sub_path mount_path : Text) → List VolumeMount
unfolding has_credentials_mount
append_sub_path_mount mounts vol sub_path mount_path =
    if has_credentials_mount mounts vol mount_path
    then mounts
    else mounts
      ++ record { name = vol; mount_path = mount_path; sub_path = sub_path; read_only = true } ∷ []

unfoldable pub mount_credentials : Text → Container → Container
unfolding append_sub_path_mount volume_mount_exists
mount_credentials vol c =
    if shares_data c
    then record c {
      volume_mounts =
          append_sub_path_mount
            (append_sub_path_mount c.volume_mounts vol (lit "client-secret.txt") secret_path) vol
            (lit "client-id.txt") id_path;
    }
    else c

unfoldable pub mount_in_all : Text → List Container → List Container
unfolding mount_credentials
mount_in_all vol [] = []
mount_in_all vol (c ∷ l) = mount_credentials vol c ∷ mount_in_all vol l

abbrev pub with_volume : List Volume → Text → List Volume
with_volume volumes vol =
    if volume_exists volumes vol
    then volumes
    else volumes ++ record { name = vol; source = secret vol false } ∷ []

-- ApplyKeycloakClientCredentialsSecretVolumes
unfoldable pub apply_secret_volumes : PodSpec → GoMap Text → PodSpec
unfolding mount_in_all volume_exists
apply_secret_volumes spec annotations =
    let vol = secret_name_in annotations in
    if is_empty vol then spec else record {
      volumes = with_volume spec.volumes vol;
      containers = mount_in_all vol spec.containers;
    }

volume_exists-append : (l : List Volume) (v : Volume) → volume_exists (l ++ v ∷ []) v.name ≡ true
unfolding volume_exists
volume_exists-append [] v = ground (arith, beq_iff v.name v.name)
volume_exists-append (w ∷ l) v = ground (arith, volume_exists-append l v)

has-append :
    (l : List VolumeMount) (m : VolumeMount) (vol path : Text)
    → has_credentials_mount (l ++ m ∷ []) vol path
      ≡ (has_credentials_mount l vol path || (beq m.name vol && beq m.mount_path path))
unfolding has_credentials_mount
has-append [] m vol path = ground arith
has-append (n ∷ l) m vol path = ground (arith, has-append l m vol path)

has-append_sub_path_mount :
    (l : List VolumeMount) (vol sub path vol' path' : Text)
    → has_credentials_mount (append_sub_path_mount l vol sub path) vol' path'
      ≡ (has_credentials_mount l vol' path' || (beq vol vol' && beq path path'))
unfolding append_sub_path_mount
has-append_sub_path_mount l vol sub path vol' path' = ground (
  arith,
  has-append l (record { name = vol; mount_path = path; sub_path = sub; read_only = true }) vol'
      path',
  beq_iff vol vol',
  beq_iff path path',
)

mounted-mount_credentials :
    (vol : Text) (c : Container)
    → (shares_data (mount_credentials vol c) && not (is_mounted (mount_credentials vol c) vol))
      ≡ false
unfolding mount_credentials
mounted-mount_credentials vol c = elim (Bool-cases (shares_data c)) [
  | inr alone ↦ ground arith
  | inl shared ↦
      let l1 = append_sub_path_mount c.volume_mounts vol (lit "client-secret.txt") secret_path in
      ground (
        arith,
        has-append_sub_path_mount c.volume_mounts vol (lit "client-secret.txt") secret_path vol
            secret_path,
        has-append_sub_path_mount l1 vol (lit "client-id.txt") id_path vol secret_path,
        has-append_sub_path_mount l1 vol (lit "client-id.txt") id_path vol id_path,
        beq_iff vol vol,
        beq_iff secret_path secret_path,
        beq_iff id_path id_path,
      )
]

mounted_all :
    (vol : Text) (l : List Container) → container_needs_patch (mount_in_all vol l) vol ≡ false
unfolding container_needs_patch mount_in_all
mounted_all vol [] = refl
mounted_all vol (c ∷ l) = rw (mounted-mount_credentials vol c) (mounted_all vol l)

same-mount_credentials :
    (vol : Text) (c : Container)
    → (shares_data c && not (is_mounted c vol)) ≡ false
    → mount_credentials vol c ≡ c
unfolding mount_credentials append_sub_path_mount
same-mount_credentials vol c h = elim (Bool-cases (shares_data c)) [
  | inr alone ↦ rw (alone, mount_credentials) refl
  | inl shared ↦ elim (Bool-cases (has_credentials_mount c.volume_mounts vol secret_path)) [
    | inr no_secret ↦ absurd (ground arith)
    | inl with_secret ↦ elim (Bool-cases (has_credentials_mount c.volume_mounts vol id_path)) [
      | inr no_id ↦ absurd (ground arith)
      | inl with_id ↦ rw (shared, mount_credentials) (rw with_secret (rw with_id refl))
    ]
  ]
]

same_all :
    (vol : Text) (l : List Container) → container_needs_patch l vol ≡ false → mount_in_all vol l ≡ l
unfolding container_needs_patch mount_in_all
same_all vol [] h = refl
same_all vol (c ∷ l) h = elim (Bool-cases (shares_data c && not (is_mounted c vol))) [
  | inl needs ↦ absurd (ground arith)
  | inr done ↦ rw (same-mount_credentials vol c done, same_all vol l (ground arith)) refl
]

apply_done :
    (spec : PodSpec) (annotations : GoMap Text)
    → (needs_volume_patch (apply_secret_volumes spec annotations) annotations ≡ false)
      × (needs_volume_patch spec annotations ≡ false → apply_secret_volumes spec annotations ≡ spec)
unfolding needs_volume_patch apply_secret_volumes
apply_done spec annotations = elim (Bool-cases (is_empty (secret_name_in annotations))) [
  | inl e ↦ (
    rw (e, needs_volume_patch, apply_secret_volumes) refl,
    λ h. rw (e, apply_secret_volumes) refl,
  )
  | inr given ↦
      let vol = secret_name_in annotations in
      (
        elim (Bool-cases (volume_exists spec.volumes vol)) [
          | inl there ↦ ground (arith, mounted_all vol spec.containers)
          | inr absent ↦ ground (
            arith,
            mounted_all vol spec.containers,
            volume_exists-append spec.volumes (record { name = vol; source = secret vol false }),
          )
        ],
        λ h. elim (Bool-cases (volume_exists spec.volumes vol)) [
          | inr absent ↦ absurd (ground arith)
          | inl there ↦
              rw (given, apply_secret_volumes)
                (rw (there, same_all vol spec.containers (ground arith)) refl)
        ],
      )
]

-- A pod needs no patch exactly if applying the volumes changes nothing, and applying them a second time
-- never changes anything.
pub apply_settles :
    (spec : PodSpec) (annotations : GoMap Text)
    → ((needs_volume_patch spec annotations ≡ false)
        ↔ (apply_secret_volumes spec annotations ≡ spec))
      × (apply_secret_volumes (apply_secret_volumes spec annotations) annotations
          ≡ apply_secret_volumes spec annotations)
apply_settles spec annotations =
    let (settled, unchanged) = apply_done spec annotations in
    (
      (unchanged, λ e. ap (λ (t : PodSpec). needs_volume_patch t annotations) (sym e) ∙ settled),
      (apply_done (apply_secret_volumes spec annotations) annotations).1 settled,
    )
