-- ===== src/Storage/Tests.antt =====
-- The template store at concrete hosts: a directory and files of the superuser, and a codec for
-- templates of one number.
use faceauth_rs.Prelude.{
  ℕ, ◌+◌, ◌≤◌, ◌≡◌, ◌↔◌, refl, ap, sym, ◌∙◌, Option-cases, Bool-cases, inl, inr, true, Option, none,
  some, Result, ok, nat_eq, bytes_eq, ◌==◌, eq_of_beq, if◌then◌else◌, List, [], ◌∷◌, ◌++◌, length,
  skip, leb, All, arith,
}
use faceauth_rs.Prelude.Float.{Milli, Milli.pos, milli_float, milli_arithmetic}
use faceauth_rs.Storage.{
  IoError, StorageError, TemplateRecord, StoredPayload, live, deleted, generation_of,
  validate_template, validate_stored_payload, squared_norm, strays, next_generation,
}
use faceauth_rs.Storage.Trust.{
  Metadata, regular, directory, root_trust, verify_one, verify_directory_chain,
  verify_directory_storage, verify_private_file, verify_open_storage_file,
  verify_replace_target_storage, IsTrustedAt, verify_directory_chain_iff,
}
use faceauth_rs.Storage.Files.{
  EncryptedTemplateStore, Codec, Host, Disk, put, check_header, open_sealed, parse_plaintext, seal,
  read_payload, read_optional_payload, write_temporary_file, atomic_write, write_payload,
  prepare_directory_storage, acquire_lock, with_exclusive_uid_lock,
}
use faceauth_rs.Storage.Reading.{IsKeyed, Holds}
use faceauth_rs.Storage.Store.{
  last_generation, live_generation, saved_payload, replaced_payload, is_stale, deleted_payload,
  commit, mutate, save_with_generation, replace_if_generation, delete_inner, load_with_generation,
}
use faceauth_rs.Storage.Sealing.{IsSound, unseal}
use faceauth_rs.Storage.Generations.{deletes, perform}
use faceauth_rs.Storage.History.{replay, replace-unchanged}
use faceauth_rs.Storage.RoundTrip.{IsReadable, load-save_with_generation}

abbrev codec_digest : List ℕ
codec_digest =
    let eight = λ (rest : List ℕ). 97 ∷ 97 ∷ 97 ∷ 97 ∷ 97 ∷ 97 ∷ 97 ∷ 97 ∷ rest in
    eight (eight (eight (eight (eight (eight (eight (eight [])))))))

abbrev template_of : ℕ → ℕ → ℕ → TemplateRecord Milli
template_of version uid n = record {
  schema_version = version;
  uid = uid;
  model_compatibility_sha256 = codec_digest;
  embedding = pos n ∷ [];
}

abbrev number_of : List Milli → Option ℕ
number_of (pos n ∷ []) = some n
number_of _ = none

abbrev to_vec : StoredPayload Milli → Option (List ℕ)
to_vec (deleted v g u) = some (v ∷ g ∷ u ∷ [])
to_vec (live v g r) = elim (number_of r.embedding) [
  | none ↦ none
  | some n ↦
      if r.model_compatibility_sha256 == codec_digest
      then some (v ∷ g ∷ r.schema_version ∷ r.uid ∷ n ∷ [])
      else none
]

abbrev payload_from : List ℕ → Option (StoredPayload Milli)
payload_from (v ∷ g ∷ u ∷ []) = some (deleted v g u)
payload_from (v ∷ g ∷ w ∷ u ∷ n ∷ []) = some (live v g (template_of w u n))
payload_from _ = none

abbrev tag : List ℕ
tag = 0 ∷ 0 ∷ 0 ∷ 0 ∷ 0 ∷ 0 ∷ 0 ∷ 0 ∷ 0 ∷ 0 ∷ 0 ∷ 0 ∷ 0 ∷ 0 ∷ 0 ∷ 0 ∷ []

abbrev codec : Codec Milli
codec = record {
  to_vec = to_vec;
  payload_from = payload_from;
  record_from = λ b. none;
  encrypt = λ k n aad b. some (tag ++ b);
  decrypt = λ k n aad b. some (skip 16 b);
}

number_of-some : (e : List Milli) (n : ℕ) → number_of e ≡ some n → e ≡ pos n ∷ []
number_of-some e n h = ground arith

rebuilt :
    (r : TemplateRecord Milli) (n : ℕ)
    → r.model_compatibility_sha256 ≡ codec_digest
    → r.embedding ≡ pos n ∷ []
    → r ≡ template_of r.schema_version r.uid n
rebuilt r n e₁ e₂ =
    let make : List ℕ → List Milli → TemplateRecord Milli = λ d e. record {
      schema_version = r.schema_version;
      uid = r.uid;
      model_compatibility_sha256 = d;
      embedding = e;
    } in
    ap (λ d. make d r.embedding) e₁ ∙ ap (make codec_digest) e₂

encoded_short : (p : StoredPayload Milli) (b : List ℕ) → to_vec p ≡ some b → length b ≤ 5
encoded_short (deleted v g u) b h = ground arith
encoded_short (live v g r) b h = ground arith

decodes : (p : StoredPayload Milli) (b : List ℕ) → to_vec p ≡ some b → payload_from b ≡ some p
decodes (deleted v g u) b h = ground arith
decodes (live v g r) b h = elim (Option-cases (number_of r.embedding)) [
  | inl e ↦ absurd (ground arith)
  | inr (n, e) ↦ elim (Bool-cases (r.model_compatibility_sha256 == codec_digest)) [
    | inr e₁ ↦ absurd (ground arith)
    | inl e₁ ↦
        let numbers = number_of-some r.embedding n e in
        let same = eq_of_beq r.model_compatibility_sha256 codec_digest e₁ in
        let whole : r ≡ template_of r.schema_version r.uid n = rebuilt r n same numbers in
        let bytes : v ∷ g ∷ r.schema_version ∷ r.uid ∷ n ∷ [] ≡ b = ground arith in
        ap payload_from (sym bytes) ∙ ap (λ t. some (live v g t)) (sym whole)
  ]
]

codec-IsSound : IsSound ℕ ℕ codec
codec-IsSound = record {
  decodes = λ p uid b v h. decodes p b h;
  decrypts = λ k n aad p c h.
      ap (λ (o : Option (List ℕ)). elim o [ none ↦ none | some x ↦ some (skip 16 x) ]) (sym h);
  tags = λ k n aad p c h. ground arith;
  short = λ p uid b v h. omega (arith, encoded_short p b h);
}

abbrev stat : ℕ → Result IoError Metadata
stat p =
    if leb p 1
    then ok (record { kind = directory; uid = 0; mode = 448 })
    else ok (record { kind = regular; uid = 0; mode = 384 })

-- The directory is 0 and its parent 1.
abbrev store : EncryptedTemplateStore ℕ
store = record {
  directory = 0;
  trust = root_trust;
  ancestors = λ p. 0 ∷ 1 ∷ [];
  path_for = λ uid. 10 + uid;
  lock_path_for = λ uid. 1000 + uid;
}

abbrev private_file : Metadata
private_file = record { kind = regular; uid = 0; mode = 384 }

abbrev secret : List ℕ
secret = 5 ∷ []

abbrev nonce : List ℕ
nonce = 9 ∷ 9 ∷ 9 ∷ 9 ∷ 9 ∷ 9 ∷ 9 ∷ 9 ∷ tag

abbrev host : Host ℕ ℕ
host = record {
  stat_before = stat;
  exists = λ p. true;
  create_dir_all = ok tt;
  set_permissions = ok tt;
  stat = stat;
  open_lock = ok (ok private_file);
  lock = ok tt;
  open_read = ok (ok private_file);
  read_to_end = ok tt;
  load_key = ok secret;
  random_nonce = ok nonce;
  temporary = 2000;
  create_temporary = ok (ok private_file);
  write_temporary = ok tt;
  rename = ok tt;
  sync_directory = ok tt;
}

host-IsKeyed : IsKeyed secret host
host-IsKeyed = record { one_key = λ k e. ground arith; nonces = λ n e. ground arith }

abbrev template : TemplateRecord Milli
template = template_of 2 7 1000

abbrev blank_disk : Disk
blank_disk u = none

abbrev sealed_bytes : List ℕ
sealed_bytes = 70 ∷ 65 ∷ 84 ∷ 49 ∷ 2 ∷ 0 ∷ (nonce ++ (tag ++ (1 ∷ 1 ∷ 2 ∷ 7 ∷ 1000 ∷ [])))

abbrev disk : Disk
disk = put 7 sealed_bytes blank_disk

held : Holds ℕ ℕ codec secret 7 (some (live 1 1 template)) (disk 7)
unfolding Holds unseal check_header open_sealed parse_plaintext validate_stored_payload
    validate_template squared_norm strays
held = (sealed_bytes, refl, refl)

save_first : save_with_generation codec store host template blank_disk ≡ (ok 1, disk)
unfolding save_with_generation validate_template squared_norm strays with_exclusive_uid_lock
    acquire_lock prepare_directory_storage verify_directory_storage verify_directory_chain
    verify_one verify_replace_target_storage verify_private_file verify_open_storage_file mutate
    commit saved_payload last_generation next_generation read_optional_payload read_payload
    write_payload seal validate_stored_payload atomic_write write_temporary_file generation_of
save_first = refl

-- A deletion for a generation that is gone, and the replacement for the one that is there
replace_second :
    (replace_if_generation codec store host 1 template
      (replay codec store secret ((host, deletes 7 (some 9)) ∷ []) disk)).0
    ≡ ok 2
unfolding replay perform delete_inner deleted_payload is_stale live_generation replace_if_generation
    replaced_payload check_header open_sealed parse_plaintext save_with_generation validate_template
    squared_norm strays with_exclusive_uid_lock acquire_lock prepare_directory_storage
    verify_directory_storage verify_directory_chain verify_one verify_replace_target_storage
    verify_private_file verify_open_storage_file mutate commit saved_payload last_generation
    next_generation read_optional_payload read_payload write_payload seal validate_stored_payload
    atomic_write write_temporary_file generation_of
replace_second = refl

delete_second : (delete_inner codec store host 7 (some 1) disk).0 ≡ ok 2
unfolding delete_inner deleted_payload is_stale live_generation check_header open_sealed
    parse_plaintext save_with_generation validate_template squared_norm strays
    with_exclusive_uid_lock acquire_lock prepare_directory_storage verify_directory_storage
    verify_directory_chain verify_one verify_replace_target_storage verify_private_file
    verify_open_storage_file mutate commit saved_payload last_generation next_generation
    read_optional_payload read_payload write_payload seal validate_stored_payload atomic_write
    write_temporary_file generation_of
delete_second = refl

readable : IsReadable codec store secret 7 host
unfolding verify_directory_storage verify_directory_chain verify_one verify_replace_target_storage
    verify_private_file verify_open_storage_file
readable = record {
  metadata = ok private_file;
  directory_passes = refl;
  target_passes = refl;
  opens = refl;
  file_passes = refl;
  reads = refl;
  keyed = refl;
}

verify_directory_chain_iff_example :
    (verify_directory_chain root_trust stat (0 ∷ 1 ∷ []) ≡ ok tt)
    ↔ All (IsTrustedAt root_trust stat) (0 ∷ 1 ∷ [])
verify_directory_chain_iff_example = verify_directory_chain_iff root_trust stat (0 ∷ 1 ∷ []) refl

replace-unchanged_example :
    replay codec store secret ((host, deletes 7 (some 9)) ∷ []) disk 7 ≡ disk 7
unfolding generation_of
replace-unchanged_example =
    replace-unchanged codec store secret codec-IsSound ((host, deletes 7 (some 9)) ∷ []) host
      template disk (live 1 1 template) 2 (host-IsKeyed, tt) host-IsKeyed held replace_second

load-save_with_generation_example :
    load_with_generation codec store host 7
      (save_with_generation codec store host template blank_disk).1
    ≡ ok (record { generation = 1; template = template })
load-save_with_generation_example =
    load-save_with_generation codec store secret codec-IsSound host host template blank_disk 1
      host-IsKeyed readable (ap (λ (k : Result (StorageError ℕ ℕ) ℕ × Disk). k.0) save_first)
