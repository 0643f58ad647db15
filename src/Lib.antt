-- ===== src/Lib.antt =====
-- MORF scans mobile applications for leaked secrets. A server takes uploads and enqueues jobs on
-- Redis, workers take them, scan and settle them, and the findings are filtered, gated and compared.
-- This library models the parts of the Go program under morf/ that decide what becomes of a job and of
-- a finding.
--
-- The parts and their files:
--
--   Breaker      morf/utils/circuitbreaker.go. `admit` is `Call` up to the protected function, `resolve`
--                what it does afterwards; `call` is both. System runs any interleaving of calls.
--   Redis        the server and the connection to it, which are not part of the repository. A record of
--                the commands with their documented effect on what can be read back; Memory is an
--                instance. Every command or atomic script is one round trip, whose fate (delivered,
--                refused, reply lost) the world lists. Frame is a calculus of what an action keeps.
--   Job          morf/models/ScanJob.go: `ToMap` and `FromMap` as to_map and from_map. Codec holds the
--                library functions on times, numbers and trace carriers; Plain is an instance.
--   Queue        morf/queue/queue.go: one function for each method, and in Scripts each Lua script, with its
--                name in lower case. Delivery is about a job id in the lists, Admission about the depth
--                limit, Updates and Cancel about the status sets, Retry about the dead-letter list. Reaper
--                is morf/queue/reaper.go.
--   Worker       morf/worker/worker.go: `processJob`, `handleJobSuccess` and `handleJobFailure`. They
--                return whether to acknowledge and the effects outside Redis. The scan is an argument.
--                Retry has the errors of a scan and the delay before a new attempt; Settled and Delivery are
--                about a whole delivery, with a scan that reports its phases.
--   Auth         morf/auth/middleware.go and morf/models/APIKey.go, with the order of the handlers in
--                morf/router/routers.go. Keys is the cache of validated keys and Fresh what it promises,
--                Usage the recorded use of keys, Chain what a request has shown when it is let through.
--   Storage      morf/storage/storage.go is a record of operations and laws. Local is morf/storage/local.go
--                over the calls of the operating system, Atomic makes it an instance of the record, and
--                Plain is a file system in memory.
--   Ingest       morf/ingest: the choice of an adapter and the adapter for local paths. Address is the
--                check of addresses, with `ValidateWebhookURL` of morf/utils/webhook.go, Download the
--                capped copy of common.go, Https the adapter of https.go. Capped, Vetted and Leaves are
--                about what a download holds, where it comes from, and what a refused one leaves.
--   Upload       morf/router/routers.go: the handlers of POST /upload and POST /bulk-upload, over Queue and
--                Storage. Outcome and Bulk are about what they leave behind, Admission about the queue.
--   Retry        morf/utils/retry.go: `RetryWithContext` over what each attempt meets. Attempts counts its
--                calls, Waits bounds its delays.
--   Verify       morf/verify: Providers and Transport are providers.go and client.go, Aws is aws.go, and
--                Verify itself verify.go and registry.go. Accepted, Evidence and Bounds are about the
--                responses, what stands behind an outcome, and the number of requests.
--   Finding      morf/models/SecretModel.go.
--   Detect       morf/detect/detect.go and morf/detect/precision.go. Patterns is the pattern sets of the
--                platforms and their cache, Lines the findings of one line, Corpus the scan of a set of
--                roots; Detect itself is `SanitizeSecrets` and Precision `ApplyPrecision`. Owner is about
--                the group of the combined expression that names a pattern, Recall about the findings of a
--                line, Scope about the platforms of a cache, Hits about a whole scan.
--   Command      morf/utils/command.go: `RunWithContextStream`, with which Detect runs ripgrep.
--   Ios          morf/ios/macho.go: the strings of a binary. Corpus is the file that is then scanned, with
--                Corpus/Lines on its lines; Recall is about the strings that are found. Unpack is
--                morf/ios/unpack.go over the file system of Tree, behind the check of ZipSafety; its Entries
--                and Contained are about what it leaves on the disk.
--   Gate         morf/gate/gate.go: `Evaluate` against a baseline. Files is the baseline as a JSON file;
--                Command and Run are the commands `morf gate allow` and `morf gate` of morf/cmd/gate.go,
--                and Adopted and Allowed what these leave in the file.
--   ZipSafety    morf/utils/zipbomb.go: `CheckAPKSafe`; an int64 is its 64 bits.
--   Exposure     morf/apk/exposure.go: `AnalyzeExposure`.
--   Report       morf/report/sarif.go: the preview of a secret and the SARIF document. Json is the
--                masking of stored results; Preview, Masked and Rules are about these three.
--   Comparison   morf/utils/comparison.go: `CompareScans`. Keys says when two secrets have one key.
--   Prelude      names, tests, lists and texts that the parts share.
--
-- The upload handlers store a package and publish its job, the worker calls the queue, the queue
-- writes jobs by Job and commands by Redis, and the gate reads the tiers that Detect writes.
-- Detect scans what Ios and the Android tools leave behind, through Command, and Report prints its
-- findings. No definition runs on fuel: loops recurse on the list or the count that they run over.
-- Counters, sizes and settings are natural numbers; a setting that is not positive is 0 where the
-- source tests for that. Delays of the worker are exact while the configured base and maximum are
-- at most 2 ^ 62 nanoseconds.
--
-- Not modelled: the other HTTP handlers, the limiter of requests per address, the S3 store and adapter,
-- the delivery of webhooks, the database and the clients of other services; the Android analysis, the
-- property lists and the order of the iOS analysis; the exports and the reports other than SARIF; the
-- expiry of Redis keys as time passes; the watchers that run beside a scan; floating-point scores and
-- ratios, regular expressions, path functions and other functions of the Go library, which are arguments.
pub mod Prelude
pub mod Breaker
pub mod Command
pub mod Redis
pub mod Ingest
pub mod Ios
pub mod Job
pub mod Queue
pub mod Worker
pub mod Finding
pub mod Gate
pub mod Detect
pub mod Auth
pub mod Retry
pub mod Storage
pub mod Upload
pub mod Verify
pub mod ZipSafety
pub mod Exposure
pub mod Comparison
pub mod Report
