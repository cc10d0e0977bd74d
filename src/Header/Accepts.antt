-- ===== src/Header/Accepts.antt =====
-- Which headers the checks of `Header.parse` accept.
use aspose_note_foss_for_pyt.Prelude.{
  ℕ, ◌≡◌, ◌<◌, ◌↔◌, refl, ap, ◌∙◌, true, false, ◌||◌, ◌==◌, List, length, bytes_eq, bytes_eq_iff,
  arith, some, if◌then◌else◌,
}
use aspose_note_foss_for_pyt.ChunkRefs.Fcr32
use aspose_note_foss_for_pyt.ChunkRefs.Fcr64x32
use aspose_note_foss_for_pyt.CommonTypes.ExtendedGuid.{zero_guid}
use aspose_note_foss_for_pyt.Context.{warn_context}
use aspose_note_foss_for_pyt.Parser.{State, M, ok, ◌>>◌}
use aspose_note_foss_for_pyt.Parser.Rules.{continue-ok}
use aspose_note_foss_for_pyt.Header.{
  Header, guid_file_format, rgb_zero, check_values, check_references, check_legacy, check,
  warn_length,
}

-- The fixed values that the format prescribes, and the fields that must be there.
pub record HasValues (h : Header) : Type 0 where
  pub file_format : h.guid_file_format ≡ guid_file_format
  pub transactions : 0 < h.c_transactions_in_log
  pub debug_log_flags : h.grf_debug_log_flags ≡ 0
  pub debug_log : Fcr64x32.is_zero h.fcr_debug_log ≡ true
  pub alloc_verification : Fcr64x32.is_zero h.fcr_alloc_verification_free_chunk_list ≡ true
  pub log_not_zero : Fcr64x32.is_zero h.fcr_transaction_log ≡ false
  pub log_not_nil : Fcr64x32.is_nil h.fcr_transaction_log ≡ false
  pub root_not_zero : Fcr64x32.is_zero h.fcr_file_node_list_root ≡ false
  pub root_not_nil : Fcr64x32.is_nil h.fcr_file_node_list_root ≡ false

pub record HasReferences (h : Header) (n : ℕ) : Type 0 where
  pub transaction_log : Fcr64x32.fits_file h.fcr_transaction_log n ≡ true
  pub file_node_list_root : Fcr64x32.fits_file h.fcr_file_node_list_root n ≡ true
  pub hashed_chunk_list : Fcr64x32.fits_file h.fcr_hashed_chunk_list n ≡ true
  pub free_chunk_list : Fcr64x32.fits_file h.fcr_free_chunk_list n ≡ true
  pub legacy_free_chunk_list : Fcr32.fits_file h.fcr_legacy_free_chunk_list n ≡ true
  pub legacy_transaction_log : Fcr32.fits_file h.fcr_legacy_transaction_log n ≡ true
  pub legacy_file_node_list_root : Fcr32.fits_file h.fcr_legacy_file_node_list_root n ≡ true

pub record HasLegacy (h : Header) : Type 0 where
  pub legacy_file_version : h.guid_legacy_file_version ≡ zero_guid
  pub free_chunk_list : Fcr32.is_zero h.fcr_legacy_free_chunk_list ≡ true
  pub transaction_log : Fcr32.is_nil h.fcr_legacy_transaction_log ≡ true
  pub expected_length : h.cb_legacy_expected_file_length ≡ 0
  pub placeholder : h.rgb_placeholder ≡ 0
  pub list_root : Fcr32.is_nil h.fcr_legacy_file_node_list_root ≡ true
  pub free_space : h.cb_legacy_free_space_in_free_chunk_list ≡ 0
  pub embedded : h.f_has_no_embedded_file_objects ≡ 0
  pub reserved : h.rgb_reserved ≡ rgb_zero

-- Each group of checks accepts exactly what its record says, and then changes nothing.
module _ (h : Header) (s t : State) where
  check_values_iff : (check_values h s ≡ ok tt t) ↔ ((s ≡ t) × HasValues h)
  unfolding check_values
  check_values_iff = (
    λ e. (ground arith, ground (arith, bytes_eq_iff h.guid_file_format guid_file_format)),
    λ (p, v). ground (
      arith,
      bytes_eq_iff h.guid_file_format guid_file_format,
      ap (λ (l : List ℕ). length l) v.file_format,
    ),
  )

  check_legacy_iff : (check_legacy h s ≡ ok tt t) ↔ ((s ≡ t) × HasLegacy h)
  unfolding check_legacy
  check_legacy_iff =
      (λ e. (ground arith, ground (arith, guid, reserved)), λ p. ground (arith, guid, reserved))
    where
      guid :
          (bytes_eq h.guid_legacy_file_version zero_guid ≡ true)
          ↔ (h.guid_legacy_file_version ≡ zero_guid)
      guid = bytes_eq_iff h.guid_legacy_file_version zero_guid

      reserved : (bytes_eq h.rgb_reserved rgb_zero ≡ true) ↔ (h.rgb_reserved ≡ rgb_zero)
      reserved = bytes_eq_iff h.rgb_reserved rgb_zero

module _ (h : Header) (n : ℕ) (s t : State) where
  check_references_iff : (check_references h n s ≡ ok tt t) ↔ ((s ≡ t) × HasReferences h n)
  unfolding check_references
  check_references_iff = (
    λ e. (
      ground (
        arith,
        Fcr64x32.validate_in_file_lem h.fcr_transaction_log n s,
        Fcr64x32.validate_in_file_lem h.fcr_file_node_list_root n s,
        Fcr64x32.validate_in_file_lem h.fcr_hashed_chunk_list n s,
        Fcr64x32.validate_in_file_lem h.fcr_free_chunk_list n s,
        Fcr32.validate_in_file_lem h.fcr_legacy_free_chunk_list n s,
        Fcr32.validate_in_file_lem h.fcr_legacy_transaction_log n s,
        Fcr32.validate_in_file_lem h.fcr_legacy_file_node_list_root n s,
      ),
      ground (
        arith,
        Fcr64x32.validate_in_file_lem h.fcr_transaction_log n s,
        Fcr64x32.validate_in_file_lem h.fcr_file_node_list_root n s,
        Fcr64x32.validate_in_file_lem h.fcr_hashed_chunk_list n s,
        Fcr64x32.validate_in_file_lem h.fcr_free_chunk_list n s,
        Fcr32.validate_in_file_lem h.fcr_legacy_free_chunk_list n s,
        Fcr32.validate_in_file_lem h.fcr_legacy_transaction_log n s,
        Fcr32.validate_in_file_lem h.fcr_legacy_file_node_list_root n s,
      ),
    ),
    λ r. ground (
      arith,
      Fcr64x32.validate_in_file_lem h.fcr_transaction_log n s,
      Fcr64x32.validate_in_file_lem h.fcr_file_node_list_root n s,
      Fcr64x32.validate_in_file_lem h.fcr_hashed_chunk_list n s,
      Fcr64x32.validate_in_file_lem h.fcr_free_chunk_list n s,
      Fcr32.validate_in_file_lem h.fcr_legacy_free_chunk_list n s,
      Fcr32.validate_in_file_lem h.fcr_legacy_transaction_log n s,
      Fcr32.validate_in_file_lem h.fcr_legacy_file_node_list_root n s,
    ),
  )

-- What an accepted header leaves: a warning where the recorded length is neither 0 nor the file's.
abbrev pub after_check : Header → ℕ → State → State
after_check h n s =
    if h.cb_expected_file_length == 0 || h.cb_expected_file_length == n then s else record s {
      ctx = warn_context "cbExpectedFileLength does not match actual file size" (some 196) s.ctx;
    }

pub record IsWellFormed (h : Header) (n : ℕ) : Type 0 where
  pub has_values : HasValues h
  pub has_references : HasReferences h n
  pub has_legacy : HasLegacy h

warn_length_iff :
    (h : Header) (n : ℕ) (s t : State) → (warn_length h n s ≡ ok tt t) ↔ (t ≡ after_check h n s)
unfolding warn_length
warn_length_iff h n s t = (λ e. ground arith, λ e. ground arith)

-- The checks of a header accept exactly the well-formed ones, and leave the state as it is but for
-- one warning.
pub check_iff :
    (h : Header) (n : ℕ) (s t : State)
    → (check h n s ≡ ok tt t) ↔ ((t ≡ after_check h n s) × IsWellFormed h n)
unfolding check
check_iff h n s t = (forward, backward)
  where
    legacy : M (Unit {0})
    legacy = check_legacy h >> warn_length h n

    forward : check h n s ≡ ok tt t → (t ≡ after_check h n s) × IsWellFormed h n
    forward e =
        let (_, s1, e1, r1) =
          continue-ok (check_values h s) (λ _. check_references h n >> legacy) e in
        let (p1, v) = (check_values_iff h s s1).0 e1 in
        let (_, s2, e2, r2) = continue-ok (check_references h n s1) (λ _. legacy) r1 in
        let (p2, r) = (check_references_iff h n s1 s2).0 e2 in
        let (_, s3, e3, r3) = continue-ok (check_legacy h s2) (λ _. warn_length h n) r2 in
        let (p3, l) = (check_legacy_iff h s2 s3).0 e3 in
        (
          rw (p1 ∙ p2 ∙ p3) ((warn_length_iff h n s3 t).0 r3),
          record { has_values = v; has_references = r; has_legacy = l },
        )

    backward : (t ≡ after_check h n s) × IsWellFormed h n → check h n s ≡ ok tt t
    backward (p, w) =
        rw
          (
            (check_values_iff h s s).1 (refl, w.has_values),
            (check_references_iff h n s s).1 (refl, w.has_references),
            (check_legacy_iff h s s).1 (refl, w.has_legacy),
          )
          ((warn_length_iff h n s t).1 p)
