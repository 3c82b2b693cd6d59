-- ===== src/Lib.antt =====
-- A knowledge base of documents: uploads are scanned, extracted, chunked and embedded by workers
-- that share a table of jobs; readers see what their tier allows; and passages reach an external
-- model only through the Data Boundary Gateway.
--
-- * Access models src/modules/auth/access.py: can_view and, in Access.Clause, the SQL form of the
--   same rule over a record of query-builder operations and their documented laws.
-- * Documents models the Document of src/modules/document_pipeline/models.py and the enumerations
--   of src/db/enums.py. UUIDs and times are natural numbers.
-- * Repository models InMemoryDocumentRepository of src/modules/document_pipeline/repository.py, an
--   operation to a function, with the dictionary as the list of its values in insertion order.
-- * Upload models UploadService.receive of src/modules/document_pipeline/upload_service.py and
--   src/modules/document_pipeline/storage_keys.py, by which the upload and the scan agree on a key.
-- * Scan models ScanJobHandler of src/modules/document_pipeline/scan_job_handler.py over the
--   repository: Scan has its data, the audit write and the escalation of tiers, Scan.Process the
--   branches of process. The object store, storage_keys.py and the validator are the fields of
--   Services. The unique index uq_documents_active_sha256 of src/db/models.py refuses the write of
--   a promotion that lost a race; the field meanwhile of Services is what other processes do before
--   that write.
-- * Validation models FileValidator and ClamAVScanner of
--   src/modules/document_pipeline/validation.py; the table of formats and the hash are parameters.
--   Its verdicts are what the validator of Services in Scan gives.
-- * Stages models the handlers behind the scan, extraction_job_handler.py,
--   normalization_job_handler.py, chunking_job_handler.py and embedding_job_handler.py of
--   src/modules/document_pipeline/: a child module per handler, with a function for each stretch of
--   process between two calls that may fail. Stages.Lifecycle is the diagram of statuses without
--   the code. Stages.Runs takes the handlers as one family; Stages.Live composes them. The object
--   store, the extractor, the normalizer, the chunker and the embedder are the fields of Tools. The
--   passages of a document have distinct indices, as uq_document_chunks_position demands, so that a
--   vector is paired with a passage by its index.
-- * Chunker models src/modules/document_pipeline/chunking/chunker.py over a budget of sizing.py:
--   Chunker has the cutting of text and of rows to size, Chunker.Tables the rendering of a table,
--   Chunker.Sections the sections under headings, Chunker.Document the loops of chunk. Stages takes
--   a chunker as a field of Tools.
-- * Erasure models src/modules/document_pipeline/erasure.py over Repository and the rows of Queue
--   and Stages, with a session that holds what is committed and what is not, and the audit entry of
--   the delete route of src/api/v1/ingestion.py, whose AuditService.log_event commits, or rolls back
--   when it cannot; the keys of the artifacts are those of storage_keys.py.
-- * Drive models DriveSyncService of src/modules/connectors/drive/service.py, with models.py and
--   export_map.py beside it and the tables drive_files and drive_file_versions of
--   src/db/models.py: Drive.Folders has the walk of a folder tree of client.py, the tiers of
--   folders and the listing, Drive.Import _sync_one, Drive.Moves what a pass does with files that
--   moved, vanished or came back, Drive.Reconcile the settling of versions, Drive.Pass the order
--   of a pass. It imports through Upload and changes documents through Repository. Drive's API is
--   a record of functions. The walk goes down ten folders, as the source's max_depth says; the
--   structure of the loop is the recursion on what is left of it.
-- * Retrieval models RetrievalService.search and assess of src/modules/retrieval/service.py with
--   fusion.py, lexical_query.py and models.py: Retrieval has the arms' rows, the WHERE clause and
--   the fusion, Retrieval.Query the trimming of a question, Retrieval.Search the rest. The
--   statement that the code builds is read as a function of the tables documents and
--   document_chunks. A float of a model is compared and never added to another, so a natural number
--   stands for its place among the floats; the scores of the fusion are fractions. Only WHERE
--   clauses decide what the indexes of Engine may return.
-- * Generation models AnswerService of src/modules/generation/service.py with models.py: it takes
--   what Retrieval finds, sends it through Gateway, and checks the markers of the reply: Generation
--   has the markers and citations, Generation.Answer the prompt and the branches of answer.
-- * Queue models src/workers/base_worker.py and its table (Job of src/db/models.py): each statement
--   of the source is a function on the list of rows. Queue.Execution has execute_job and run_once.
--   Queue.System is a step relation in which workers, the reaper, lease renewals, crashes and new
--   jobs interleave, one committed transaction at a time; a worker may finish after it has lost its
--   lease.
-- * Gateway models src/modules/gateway/. Gateway.Regex is a backtracking matcher for the fragment
--   of Python's re that the recognisers use, over a Unicode database that is a parameter;
--   Gateway.Checks has the second-stage checks; Gateway.Recognizers the table of recognisers and
--   find_all; Gateway.Redaction the masking; Gateway.Boundary classify and send. A text is the list
--   of its code points.
-- * Prelude has what the parts share.
--
-- The queue and the repository meet in the stages, which a worker runs on the document of a claimed
-- job; the gateway takes passages of live documents with their tiers and uses nothing of the two.
-- The visibility rule of Access is what the repository lists by and a search selects by.
--
-- Fuel: finditer scans with as many rounds as the text has code points and one more, since every
-- round moves on by a code point; an unbounded repetition repeats at most as often as there is text
-- left, since the items that the patterns repeat consume text. Cutting a text to size nests at most
-- as deep as the text has characters, since each of several parts is shorter than the text; halving
-- a group of rows at most as deep as it has rows. All other definitions are structural. Numbers are
-- unbounded, as Python's are. A priority is a natural number: no code sets one below the default of
-- 0.
--
-- Not modelled: logging, the heartbeat file, signals and the endless polling loop; the PostgreSQL
-- repository, whose contract the in-memory one shares; the checks of the formats, the parsers
-- behind the extractor, the budgets of sizing.py, the embedding model, the loading of models, the
-- follow-ups and the fidelity checks of src/modules/generation/; the requests of the Drive client, the lock and the
-- nightly worker of the connector, authentication and the HTTP routes. Of the extractor's
-- exceptions the stages have ExtractionError alone; any other leaves the handler.
pub mod Access
pub mod Chunker
pub mod Documents
pub mod Drive
pub mod Erasure
pub mod Gateway
pub mod Generation
pub mod Prelude
pub mod Queue
pub mod Repository
pub mod Retrieval
pub mod Scan
pub mod Stages
pub mod Upload
pub mod Validation
