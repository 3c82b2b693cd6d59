-- ===== src/Scan/Examples.antt =====
-- Scans of small worlds.
use a_pag_ai_knowledge_base.Prelude.{ℕ, suc, ◌≡◌, refl, true, false, none, some, [], ◌∷◌, codes}
use a_pag_ai_knowledge_base.Access.{public, restricted}
use a_pag_ai_knowledge_base.Documents.{Document, DocumentStatus, JobStage}
use a_pag_ai_knowledge_base.Repository.{find_by_id}
use a_pag_ai_knowledge_base.Repository.Examples.{document}
use a_pag_ai_knowledge_base.Scan.{World, Services}
use a_pag_ai_knowledge_base.Scan.Process.{process}
use a_pag_ai_knowledge_base.Scan.Tiers.{Keeps, Keeps-refl, process-Keeps}
use a_pag_ai_knowledge_base.Scan.Rerun.{is_done, process_rerun}

-- An object store that holds one file under every key, and keeps count of the deletions.
abbrev services : Services ℕ
services = record {
  quarantine = "quarantine";
  raw = "raw";
  get_object = λ bucket key o. some (codes "%PDF");
  object_exists = λ bucket key o. false;
  delete_object = λ bucket key o. suc o;
  copy_object = λ bucket key to new_key o. some o;
  quarantine_key_for = λ d. "1.pdf";
  build_raw_key = λ sha256 mime. sha256;
  path_of = λ bucket key. key;
  validate_document = λ content mime. record {
    is_valid = true;
    sha256 = "c0ffee";
    page_count = some 1;
    file_size_bytes = 4;
    rejection_reason = none;
  };
  has_db = true;
  audit_fails = λ entry. false;
  now = 9;
  meanwhile = λ s. s;
}

-- A live public document, and a restricted copy of it in quarantine.
abbrev canonical : Document
canonical = document 1 DocumentStatus.live public

abbrev incoming : Document
incoming = record (document 2 DocumentStatus.quarantined restricted) { checksum = none }

abbrev both : World ℕ
both = record { storage = canonical ∷ incoming ∷ []; objects = 0; audit_log = []; new_jobs = [] }

abbrev alone : World ℕ
alone = record both { storage = incoming ∷ [] }

-- The copy is dropped, and the tier of the original raised.
escalated :
    ((process services 2 none both).0.status ≡ DocumentStatus.duplicate)
    × ((process services 2 none both).0.canonical_tier_escalated ≡ true)
    × ((process services 2 none both).1.new_jobs ≡ [])
unfolding process
escalated = (refl, refl, refl)

promoted :
    ((process services 2 none alone).0.status ≡ DocumentStatus.validated)
    × ((process services 2 none alone).1.objects ≡ 1)
    × ((process services 2 none alone).1.new_jobs ≡ (2, JobStage.extract) ∷ [])
unfolding process
promoted = (refl, refl, refl)

process-Keeps_example : Keeps both.storage (process services 2 none both).1.storage
process-Keeps_example = process-Keeps services Keeps-refl 2 none both

stored : find_by_id 1 both.storage ≡ some canonical
unfolding find_by_id
stored = refl

done : is_done (process services 2 none alone).0.status ≡ true
unfolding process
done = refl

process_rerun_example :
    ((process services 2 none (process services 2 none alone).1).1
      ≡ (process services 2 none alone).1)
    × ((process services 2 none (process services 2 none alone).1).0.status
        ≡ (process services 2 none alone).0.status)
process_rerun_example = process_rerun services 2 none none alone done
