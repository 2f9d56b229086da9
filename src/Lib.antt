-- ===== src/Lib.antt =====
-- JPG Spinner: the orientation, planning and JPEG-scanning core, the transaction journal's checks, and
-- the workers of a batch.
--
-- The program turns JPEG files upright without decoding them. The bytes of a file go to the marker
-- scan (src/JpgSpinner.JpegTransformation/src/internal/JpegSegmentScanner.cpp), which accepts a
-- bounded, well-formed, single-image codestream and returns an inventory of its markers, entropy-coded
-- ranges and metadata segments, or refuses it with a structural error. The Exif orientation found
-- there is turned into a lossless transform (src/JpgSpinner.Domain/src/ExifOrientation.cpp), and a
-- plan says which partial blocks the transform discards and what the output's dimensions are
-- (src/JpgSpinner.Domain/src/JpegTransformPlanner.cpp).
--
-- Prelude       names of the libraries, Boolean tests, lists over the native numbers
-- Domain        JpgSpinner.Domain: Failure (ImageProcessingError.h, ImageProcessingResult.h,
--               JpegResourceLimits.h), SymbolicNames (ImageProcessingSymbolicNames.h), Geometry
--               (ImageDimensions.h and the closed enumerations), Orientation (ExifOrientation),
--               Planner (createPlan); their children hold the theorems
-- Jpeg          JpegSegmentScanner.cpp and JpegMarkerInventory.h:
--   Outcome     a value, an error, an unchecked read outside of the span, or exhausted fuel
--   Bytes       byteValue, tryReadBigEndianUnsigned16/32/64, encodedBytesEqual
--   Inventory   the records of JpegMarkerInventory.h
--   Markers     the codes and identifiers, isMetadataMarker and the other classifications
--   IccChunks   validateAndOrderIccProfileChunks
--   XmpChunks   validateAndOrderExtendedXmpChunks
--   FrameHeader parseFrameHeader, isValidScanHeader
--   C2pa, Fragments, Jumbf
--               hasC2paManifestStoreIdentity, and classifyJumbfEnvelope in its two halves
--   Segments    the state of the scan, and what it records of one segment's metadata
--   Steps       the body of the scan's loop, branch by branch; Steps/Consistent is its invariant
--   Scanner     the loop and the checks in front of it
--   Output, OutputRules, Validator
--               JpegOutputValidator.cpp (beside the scanner): constantRestartInterval, the rules that an
--               output has to keep, and validate with the evidence that it returns
-- Storage       the journal of a file transaction (src/JpgSpinner.WindowsStorage/src/internal/
--               ImageFileTransactionJournal.cpp): Records, and in Journal validateRecord and
--               validateSuccessor, with the graph of the transaction's states
-- Batch         JpgSpinner.BatchProcessing (src/JpgSpinner.BatchProcessing/src/
--               BatchProcessingCoordinator.cpp):
--   Files       the results and counters of a batch and the helpers of the coordinator
--   State       what the workers of execute share, what each holds, and what foreign code answers
--   Admission, Sections
--               the atomic sections of a worker, with recordError; their children hold the state
--               machine that the proofs go by
--   Runs        the start, the events and the interleavings; its children hold the invariants
--   Conclusion  the result of execute
-- Examples      runs at concrete inputs
--
-- A state is a record of the source's locals, and a routine that changes them takes and returns the
-- record. An error is a value with its code, stage and context. A read that the source does not check
-- answers out_of_bounds where it would leave the span.
-- The scan's loop runs on fuel, two rounds for each byte: a round moves the cursor on, or ends the
-- entropy-coded data, so that many are enough. Running out of it is another value.
--
-- A byte is a natural number. A span's length is a size_t and every offset lies within the span, so
-- sums of offsets are written without a wrap-around; the pixel count of a plan and the differences of
-- declared box lengths, which come from untrusted numbers, keep theirs. The scan count is refused at
-- its largest 32-bit value, as in the source. The length of an assembled ICC profile, a 64-bit sum in
-- the source, has no bound here: the chunks of a scan lie within the bytes and cannot exceed one.
-- std::ranges::sort is a stable insertion sort, one of the orders that the sort, which is not stable,
-- may give to equal keys. For the numbers of accepted ICC chunks, which are different, there is one
-- order only. Two Extended XMP chunks may share an offset where one of them is empty; the source then
-- accepts or refuses the list by the order that its sort chooses, and the model shows one choice.
--
-- The validator's calls of the codec's reader, of the metadata reconciler and of the system's digest,
-- and the answers of its stop token, are parameters, of which nothing is assumed.
--
-- A replacement of a file is recorded in a journal of generations, each of which is checked against
-- the one before it; the checks throw where the tests here answer false. The system's conversion
-- between bytes and hexadecimal text is a parameter, CryptographicBuffer, of which nothing is assumed.
--
-- The workers of a batch run one atomic section at an event, which names the worker and carries what
-- the estimate, the provider of the memory budget, the capture, the engine, the storage's commit and
-- the observer answer, each of which may throw; another event is the caller's request to stop. An
-- interleaving is a list of events, so a theorem about every list is one about every schedule. A
-- section that waits for a mutex or for memory leaves the state as it is. The sleep of the wait for
-- memory, and the notify_all of the reservation's destructor that ends it, are not modelled: a
-- waiting worker may look at any time. That adds schedules to the source's, so what holds in every
-- interleaving holds of them, and nothing is claimed of wake-ups that are lost. An estimate may be
-- as large as 2^64 - 1, but an admission beside a reservation keeps the sum within the budget, a
-- 64-bit number, and any other charge stands alone, so the sum of the reservations does not wrap
-- around and is written without; the numbers of the saves and the files whose processing threw are
-- kept for the theorems only.
--
-- Not modelled: wake-ups, as said above; allocation failures and moved-from values; the metadata
-- toolkits and the codec; the storage transaction, the reading and writing of its journal, the
-- analysis of a batch and the user interface, which have no part in the definitions here.
pub mod Prelude
pub mod Domain
pub mod Jpeg
pub mod Examples
pub mod Storage
pub mod Batch
