-- ===== src/Storage/RoundTrip.antt =====
-- What a load finds after a save or a deletion (crates/faceauth-storage/src/lib.rs).
use faceauth_rs.Prelude.{
  ℕ, ◌≡◌, inl, inr, ap, sym, ◌∙◌, subst, false, Option, some, Result, ok, err, ◌>>=◌, Result-cases,
  nat_eq, List, arith,
}
use faceauth_rs.Prelude.Float.{Float, Arithmetic}
use faceauth_rs.Storage.{
  not_found, StorageError, io, TemplateRecord, StoredPayload, live, deleted, generation_of,
  next_generation, validate_template, stored_payload_schema_version,
}
use faceauth_rs.Storage.Trust.{Metadata, verify_replace_target_storage, verify_open_storage_file}
use faceauth_rs.Storage.Files.{
  EncryptedTemplateStore, Codec, Host, Disk, verify_directory, read_payload, read_optional_payload,
  acquire_lock, with_exclusive_uid_lock,
}
use faceauth_rs.Storage.Sealing.{IsSound, unseal}
use faceauth_rs.Storage.Reading.{IsKeyed}
use faceauth_rs.Storage.Store.{
  load, load_with_generation, has_authenticated_template, commit, live_generation, saved_payload,
  is_stale, deleted_payload, mutate, save_with_generation, delete_inner,
}
use faceauth_rs.Storage.Generations.{commit-Effect, Effect, refuses, writes}

module _ {P K W : Type 0} ⦃f : Float W⦄ ⦃a : Arithmetic W⦄ (codec : Codec W)
    (s : EncryptedTemplateStore P) (secret : List ℕ) where
  -- A host on which the file of an account can be read, with the key.
  pub record IsReadable (uid : ℕ) (h : Host P K) : Type 0 where
    pub metadata : Result ℕ Metadata
    pub directory_passes : verify_directory codec s h ≡ ok tt
    pub target_passes :
        verify_replace_target_storage s.trust {K = K} h.stat (s.path_for uid) ≡ ok tt
    pub opens : h.open_read ≡ ok metadata
    pub file_passes : verify_open_storage_file s.trust {K = K} metadata (s.path_for uid) ≡ ok tt
    pub reads : h.read_to_end ≡ ok tt
    pub keyed : h.load_key ≡ ok secret

  read_payload-unseal :
      (h : Host P K) (uid : ℕ) (disk : Disk) (bytes : List ℕ) (payload : StoredPayload W)
      → IsReadable uid h
      → disk uid ≡ some bytes
      → unseal {P = P} {K = K} codec secret uid bytes ≡ ok payload
      → read_payload codec s h uid disk ≡ ok payload
  unfolding read_payload unseal
  read_payload-unseal h uid disk bytes payload r file holds =
      rw (r.directory_passes, r.target_passes, file, r.opens, r.file_passes, r.reads, r.keyed) holds

  module _ (sound : IsSound P K codec) where
    -- What a mutation that succeeded went through
    record Written (uid : ℕ)
        (next : Option (StoredPayload W) → Result (StorageError P K) (StoredPayload W)) (g : ℕ)
        (file : Option (List ℕ)) : Type 0 where
      pub current : Option (StoredPayload W)
      pub payload : StoredPayload W
      pub bytes : List ℕ
      pub chosen : next current ≡ ok payload
      pub numbered : g ≡ generation_of payload
      pub there : file ≡ some bytes
      pub holds : unseal {P = P} {K = K} codec secret uid bytes ≡ ok payload

    Effect-Written :
        (uid : ℕ) (next : Option (StoredPayload W) → Result (StorageError P K) (StoredPayload W))
        (read : Option (StoredPayload W)) (disk after : Disk) (r : Result (StorageError P K) ℕ)
        (g : ℕ)
        → Effect codec s secret uid (next read) disk r after
        → r ≡ ok g
        → Written uid next g (after uid)
    Effect-Written uid next read disk after r g (refuses e same) done = absurd (ground arith)
    Effect-Written uid next read disk after r g (writes payload bytes target held same answered)
          done =
        record {
          current = read;
          payload = payload;
          bytes = bytes;
          chosen = target;
          numbered = ground arith;
          there = ap (λ (d : Disk). d uid) same ∙ ground arith;
          holds = held;
        }

    mutate-Written :
        (h : Host P K) (uid : ℕ)
        (next : Option (StoredPayload W) → Result (StorageError P K) (StoredPayload W))
        (disk : Disk) (g : ℕ)
        → IsKeyed secret h
        → (mutate codec s h uid next disk).0 ≡ ok g
        → Written uid next g ((mutate codec s h uid next disk).1 uid)
    unfolding mutate commit
    mutate-Written h uid next disk g keyed done =
        elim (Result-cases (read_optional_payload codec s h uid disk)) [
          | inr (x, e) ↦ absurd (ground arith)
          | inl (read, e) ↦
              subst
                (λ z.
                  (commit codec s h uid (z >>= next) disk).0 ≡ ok g
                  → Written uid next g ((commit codec s h uid (z >>= next) disk).1 uid))
                (sym e)
                (Effect-Written uid next read disk _ _ g
                  (commit-Effect codec s secret h sound keyed uid (next read) disk))
                done
        ]

    locked-Written :
        (h : Host P K) (uid : ℕ)
        (next : Option (StoredPayload W) → Result (StorageError P K) (StoredPayload W))
        (disk : Disk) (g : ℕ)
        → IsKeyed secret h
        → (with_exclusive_uid_lock codec s h uid (mutate codec s h uid next) disk).0 ≡ ok g
        → Written uid next g
            ((with_exclusive_uid_lock codec s h uid (mutate codec s h uid next) disk).1 uid)
    unfolding with_exclusive_uid_lock
    locked-Written h uid next disk g keyed done = elim (Result-cases (acquire_lock codec s h uid)) [
      | inr (x, e) ↦ absurd (ground arith)
      | inl (u, e) ↦
          rw (with_exclusive_uid_lock, e)
            (mutate-Written h uid next disk g keyed (ground (arith, done, e)))
    ]

    saved_live :
        (r : TemplateRecord W) (current : Option (StoredPayload W)) (p : StoredPayload W) (g : ℕ)
        → saved_payload {P = P} {K = K} r current ≡ ok p
        → g ≡ generation_of p
        → p ≡ live stored_payload_schema_version g r
    unfolding saved_payload generation_of next_generation
    saved_live r current p g chosen numbered = ground arith

    load-saved :
        (n : Host P K) (r : TemplateRecord W) (disk : Disk) (g : ℕ)
        → IsReadable r.uid n
        → Written r.uid (saved_payload r) g (disk r.uid)
        → load_with_generation codec s n r.uid disk ≡ ok (record { generation = g; template = r })
    unfolding load_with_generation
    load-saved n r disk g readable w =
        let back = read_payload-unseal n r.uid disk w.bytes w.payload readable w.there w.holds in
        let known = saved_live r w.current w.payload g w.chosen w.numbered in
        ground (arith, back, known)

    -- After a save that succeeded, a load on a host that can read the file finds the record saved,
    -- with the generation that the save returned.
    pub load-save_with_generation :
        (h n : Host P K) (r : TemplateRecord W) (disk : Disk) (g : ℕ)
        → IsKeyed secret h
        → IsReadable r.uid n
        → (save_with_generation codec s h r disk).0 ≡ ok g
        → load_with_generation codec s n r.uid (save_with_generation codec s h r disk).1
          ≡ ok (record { generation = g; template = r })
    unfolding save_with_generation
    load-save_with_generation h n r disk g keyed readable done =
        elim (Result-cases (validate_template {P = P} {K = K} r)) [
          | inr (x, e) ↦ absurd (ground arith)
          | inl (u, e) ↦
              let w =
                locked-Written h r.uid (saved_payload r) disk g keyed (ground (arith, done, e)) in
              rw (save_with_generation, e) (load-saved n r _ g readable w)
        ]

    deleted_gone :
        (uid : ℕ) (expected : Option ℕ) (current : Option (StoredPayload W)) (p : StoredPayload W)
        (g : ℕ)
        → deleted_payload {P = P} {K = K} uid expected current ≡ ok p
        → g ≡ generation_of p
        → p ≡ deleted stored_payload_schema_version g uid
    unfolding deleted_payload live_generation is_stale generation_of next_generation
    deleted_gone uid expected current p g chosen numbered = ground arith

    load-deleted :
        (n : Host P K) (uid : ℕ) (expected : Option ℕ) (disk : Disk) (g : ℕ)
        → IsReadable uid n
        → Written uid (deleted_payload uid expected) g (disk uid)
        → (load_with_generation codec s n uid disk ≡ err (io not_found))
          × (has_authenticated_template codec s n uid disk ≡ ok false)
    unfolding load_with_generation load has_authenticated_template
    load-deleted n uid expected disk g readable w =
        let back = read_payload-unseal n uid disk w.bytes w.payload readable w.there w.holds in
        let known = deleted_gone uid expected w.current w.payload g w.chosen w.numbered in
        (ground (arith, back, known), ground (arith, back, known))

    -- After a deletion that succeeded, a load on a host that can read the file reports that there
    -- is none, and the account has no authenticated template.
    load-delete_inner :
        (h n : Host P K) (uid : ℕ) (expected : Option ℕ) (disk : Disk) (g : ℕ)
        → IsKeyed secret h
        → IsReadable uid n
        → (delete_inner codec s h uid expected disk).0 ≡ ok g
        → let after = (delete_inner codec s h uid expected disk).1 in
          (load_with_generation codec s n uid after ≡ err (io not_found))
          × (has_authenticated_template codec s n uid after ≡ ok false)
    unfolding delete_inner
    load-delete_inner h n uid expected disk g keyed readable done =
        load-deleted n uid expected _ g readable
          (locked-Written h uid (deleted_payload uid expected) disk g keyed done)
