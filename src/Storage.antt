-- ===== src/Storage.antt =====
-- Filing a document: services/documentChecksumService.js, permanentStorageService.js,
-- placementRecovery.js, clientDocumentService.js and the effects of storagePlacementService.js. The
-- bucket is a third party's: its type and its answers are parameters.
pub mod Documents
pub mod Checksum
pub mod Copy
pub mod World
pub mod Client
pub mod Place
