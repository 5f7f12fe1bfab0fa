-- ===== src/Lib.antt =====
-- Web Resource Ledger: the web-archiving service of src/ (Cloudflare Workers, JavaScript).
--
-- The service takes a URL, refuses it unless its host is public, renders and archives the page, and
-- proves the archive with an RFC 3161 timestamp. Each part below is a module with the functions of one
-- source file, in the order and with the guards of the source, and child modules with the proofs.
--
--   UrlValidation   src/url-validation.js: validateUrl, finalizeResult, parseIPv4, isPrivateIP.
--   Address         src/url-validation.js: ipv4ToInt, ipv4DottedToTwoGroups, parseIPv6ToBigInt,
--                   isPrivateIPv4, isPrivateIPv6 and the two blocklists. UrlValidation uses it.
--   Timestamp       src/rfc3161.js: requestTimestamp, buildTimeStampReq, parseAndValidate,
--                   extractTSTInfo, parseTSTInfo, parseGeneralizedTime, verifyTimestamp.
--   Der             src/rfc3161.js: writeLength, writeTLV, readLength, readTLV, childAt, concat,
--                   encodeUnsignedInteger. Timestamp uses it.
--   Prelude         numbers, lists, texts, results of code that may throw, bits.
--   Verify          src/verify.js: verifyWacz. It uses Json, Warc (sha256) and Timestamp.
--   Wacz            src/wacz.js: buildWacz. It uses Warc, Cdxj, Json, Signing and Timestamp.
--   Warc            src/warc.js: buildWarc, buildRecord, sha256.
--   Cdxj            src/cdxj.js: buildCdxj, toSurt, toTimestamp14.
--   Json            src/canonical-json.js: canonicalize, on JSON values.
--   Signing         src/signing.js: getSigningKeys, computeKeyId.
--   Meter           src/meter-reporter.js: previousPeriod, reportPendingMeterEvents (its first pass).
--   Pricing         src/pricing.js: calculateCharges, computeBillableDelta.
--   Diff            src/diff.js: diffHtml, buildHunks, diffHeaders, diffScreenshot, computeChangeSummary.
--   Retention       src/retention.js: purgeQuarantinedCaptures, trimUsageCounters. It uses Json and Meter.
--   Sessions        src/session.js: createSessionCookie, verifySession; src/auth.js: hashApiKey;
--                   src/db.js: getSession.
--   Webhooks        src/webhook-dispatch.js: dispatchWebhooks, handleWebhookMessage, webhookRetryDelay;
--                   src/webhooks.js: validateWebhookUrl. It uses UrlValidation.
--   Scheduler       src/scheduler.js: handleScheduledTick, on a record of the services it calls.
--   CaptureQueue    src/index.js: handleCaptureMessage. It uses UrlValidation and Captures.
--   Captures        src/db.js: completeCapture, failCapture, recordAttemptError,
--                   failCaptureAfterRetries, syncScheduleStatusStatement, quarantineCapture.
--   Quotas          src/quotas.js: getEffectiveQuota, checkQuota, limitReachedEmailData; src/db.js:
--                   setBillingStatus to 'blocked'.
--
-- Texts are lists of character codes and Uint8Arrays lists of numbers. Where the source uses 32-bit
-- operators the model keeps the wrap-around (% 2 ^ 32); a BigInt is an integer, and its `&` and `|` are
-- those of two's complement. A floating-point number of Pricing is its product with 2 ^ 59, and every
-- operation on it is rounded to 53 bits, to even. What throws is an `err`, with one constructor for each message.
--
-- Code that is not in the repository is a parameter: the WHATWG URL parser, the DNS resolvers, base64,
-- `fetch`, the queue's send and the rounding of a fractional second. The Scheduler takes what it calls
-- in other files (the quota check, the database, the threat check, the next run of a cron expression)
-- as one record of services; CaptureQueue takes the URL check and performCapture.
-- Verify and Sessions take the cryptography of the platform, and Verify and Wacz the ZIP and JSON code, as
-- parameters; Meter takes the outcome of each report, Diff the differences of two texts, and Retention
-- the calls that throw. No theorem assumes anything about them beyond its own hypotheses.
--
-- Fuel: the loops of `childAt` and `parseTSTInfo` move on by at least two bytes in a round, and the
-- model gives them one round for every byte and one more, so they never stop early. The loop that
-- sends batches gets one round for every message, which each round reduces. The unit of a floating-point number is doubled up
-- to 64 times, which is enough for numbers of 117 bits; the charges need fewer than 93. The printing of a number in
-- decimal digits gets more rounds than the number has digits.
--
-- Not modelled: what only moves data between services (HTTP routing, storage calls, the browser), the
-- pages and e-mails, and time limits of requests.
pub mod Prelude
pub mod UrlValidation
pub mod Address
pub mod Timestamp
pub mod Der
pub mod CaptureQueue
pub mod Captures
pub mod Cdxj
pub mod Diff
pub mod Json
pub mod Meter
pub mod Pricing
pub mod Quotas
pub mod Retention
pub mod Scheduler
pub mod Sessions
pub mod Signing
pub mod Verify
pub mod Wacz
pub mod Warc
pub mod Webhooks
