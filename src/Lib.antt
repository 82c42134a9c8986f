-- ===== src/Lib.antt =====
-- EmlynkWABot receives documents over WhatsApp: it reads them, decides which client they belong to,
-- files them under that client or holds them for a person, and shows the rest to the admins. This
-- library models the decisions and the stateful parts of the server (src/services, src/utils).
--
-- The parts, and how they work together
--   A received file is a row of temporary_data (Queue.Table). Workers claim rows by compare-and-swap
--   and own them by attempt and lease (Queue.Claims; src/services/submissionQueue.js); what several
--   workers do together, with an admin's retry of a failed submission between them, is a step relation
--   on the table, on the claims they hold and on the time of the latest write (Queue.System).
--   One claimed submission runs processDocument (src/services/documentProcessingService.js), whose
--   decisions are the functions of Pipeline.Plan and whose effects, with the FAILED branch and the
--   attempts that turn out stale, are Pipeline.Process (its data is Pipeline.Runs), with what other
--   workers and admins do before each of its stages as an argument, in the source's order:
--   classification of the text (Classification; documentClassificationService.js), confidence
--   (Confidence; confidenceService.js), the police date (Police.Dates; policeReportDateService.js),
--   the two user lookups (Users; userLookupService.js, src/utils/passportId.js,
--   src/utils/phoneNumber.js), the identity (Identity; identityVerificationService.js), the comparison
--   with the client's record and its conditional writes (Reconciliation;
--   fieldReconciliationService.js), the acceptance of low-quality passports (Acceptance;
--   passportAcceptanceService.js), the place of the file (Placement; storagePlacementService.js), and
--   the status and review reason (Review; documentProcessingService.js, reviewReason.js).
--   Pipeline.Outcomes is statusMapping.js. Storage carries the decision out: the checksum checks
--   (documentChecksumService.js), copying under a free name (permanentStorageService.js,
--   placementRecovery.js), the documents row with its clean-up (clientDocumentService.js) and
--   placeDocument (storagePlacementService.js). Limiter is the limit on how many jobs run at once
--   (src/utils/concurrencyLimiter.js), Messages the cache of message ids that keeps a resent message
--   from being handled twice (src/utils/messageIdempotency.js).
--   What an admin does with a waiting or failed submission is Admin (adminReviewActionService.js,
--   adminCorrectionService.js, adminReviewService.js, failureReason.js): Admin.Tables has the tables
--   and lookups, Admin.Checks the conditions, Admin.Filing and Admin.Versions the actions that store a
--   file, Admin.Decisions, Admin.Removal and Admin.Corrections the others, and Admin.System all of them
--   as steps. An action has the state that it reads first and the state of its transaction as two
--   arguments: between them others may do anything. A transaction runs at one state, which is what its
--   row locks are for; the pipeline writes documents without the lock of the client's row, and is no
--   step of Admin.System.
--   Passport reads the machine-readable zone (src/utils/mrz.js), with the check digits that the field
--   confidence asks for, and Police.Countdown the days a client has left for the police report
--   (policeCountdownService.js, policeWorkflowService.js).
--   Webhook is the entry of the system (src/routes/whatsapp.js): the messages of a delivery, over the
--   cache of Messages, the checks of Images.Files, the objects in temporary/ and the rows that the queue
--   then works off. It takes the messages of one delivery in order, while no other delivery runs.
--   Images reads the size of an image from its header (src/utils/imageDimensions.js), and Images.Files
--   checks a downloaded file (src/utils/fileValidation.js).
--   Accounts has the admins' accounts: one-time tokens for passwords (passwordResetService.js, in
--   Accounts.Resets) and invitations (adminInvitationService.js, in Accounts.Invitations) over the
--   tables of Accounts.Tables, with a state read before each transaction in the same way; updates of
--   rows are in Accounts.Rows and the operations as steps in Accounts.System.
--
-- Conventions
--   Text is a list of code units (Prelude.Texts). Percentages are numbers of hundredths of a percent.
--   A missing value (null or undefined) is `none`. Tables are lists of rows, and updateMany returns
--   the table and its count. Times are milliseconds on the natural numbers; where the source
--   subtracts a lease from the current time, the difference does not go below 0. A DATE column is the
--   text of its day; Police.Countdown counts days by number. Loops over lists are structural; the five tries of claimNextSubmission count
--   down a number, and so do the twenty names of copyToFreeName: the source gives up after them too.
--   The loop of readJpeg has fuel for one turn per byte, more than it needs.
--
-- What is an input
--   Whether a regular expression matches a text, what the passport and date extraction find, the
--   checksum of a file, the storage's answers, the names of files and folders, the clock, whether a
--   database call fails, the reading of a date, hashes, random tokens, downloads and the form of
--   addresses are arguments of the definitions that use them.
--   The bucket is a type with operations; its theorems assume that a copy never replaces an object,
--   that a copy that succeeds made the same object, and that a removal keeps the other objects.
--   Within one stage of processDocument, and within placeDocument, nobody else writes; but the theorem
--   on storeClientDocument takes any state after the copy. Of a row of temporary_data the columns that
--   the queue and the admins' actions read are modelled there, not the type, the client and the summary.
--
-- What is not modelled
--   OCR, the other HTTP routes and middleware, a delivery that waits for another one, email, the other
--   admin services and the admin pages; the timers of the worker loop; the summary that is logged; the
--   file-name rules of classifyDocument; the printing of dates.
pub mod Prelude
pub mod Classification
pub mod Confidence
pub mod Users
pub mod Identity
pub mod Reconciliation
pub mod Police
pub mod Passport
pub mod Images
pub mod Acceptance
pub mod Placement
pub mod Review
pub mod Pipeline
pub mod Queue
pub mod Storage
pub mod Limiter
pub mod Messages
pub mod Webhook
pub mod Admin
pub mod Accounts
pub mod Tests
