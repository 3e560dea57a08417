-- ===== src/Lib.antt =====
-- Verification of the TypeScript front ends of BYOS Email: the webmail client (apps/webmail) and the
-- control plane (apps/control-plane).
--
-- The webmail client holds one mailbox in memory as the signals of one component. Its handlers change
-- the message list, the open copy of a message, the check marks, the undo toast and the folders, and
-- call the server; two timeouts take the toasts away. A session of connected accounts says which
-- mailbox is open and which key is in memory. The key is unwrapped with the password or with the
-- recovery phrase by a crypto core in WebAssembly, and seals drafts, contacts and attachments. The
-- control plane prices seats, rates passwords and takes the words of a recovery phrase.
--
-- Base: what the other modules share: Boolean tests on numbers, lists and sets of ids (Base/Lists),
-- texts as lists of UTF-16 code units (Base/Text), decimal digits (Base/Decimal).
--
-- Mail: apps/webmail/src/App.tsx. `State` holds the signals. Mail/View is filteredMessages,
-- sortedMessages and the pages; Mail/Actions the handlers of one message, the undo toast and the two
-- timeouts; Mail/Batch the handlers of the checked messages and moveMessages of a drop; Mail/Counts the
-- numbers of the sidebar; Mail/Folders handleSaveFolder, handleSaveLabel and what removes or selects
-- one. Mail/Trace makes the handlers and the timeouts the actions of one machine, whose
-- runs Trace/Selection and Trace/Timers are about. Mail/Lookup and Mail/Keeps carry
-- lemmas, Mail/Counts/Agree relates the counts to the list that is shown, Mail/UndoToast is about undo.
--
-- Accounts: the account handlers of the same file, handleSwitchAccount, handleAccountAdded,
-- handleStorageChange and handleLogout, on a `Session` with the two storages of the browser.
--
-- Encoding, Envelope, MailboxKey: apps/webmail/src/attachment_crypto.ts and
-- apps/webmail/src/message_crypto.ts: hexadecimal and base64 text, the envelopes with their additional
-- data, and the mailbox key. What the code throws is a `Failure`.
--
-- Mime: what handleSend writes and openMessage reads of the text of a message, in apps/webmail/src/App.tsx.
-- Keywords: extractKeywords and computeSearchToken of apps/webmail/src/message_crypto.ts. Signature:
-- apps/webmail/src/signature.ts. FileType: apps/webmail/src/fileType.ts.
--
-- Reading: openMessage and lockMailbox of apps/webmail/src/App.tsx. A call of openMessage that waits is a
-- `Pending` value in the state; `settle` runs it from one wait to the next with the answer that it gets.
-- Reading/Machine makes opening, the ends of waits, the list handlers of Mail/Trace, sign-in and the lock
-- the steps of one relation: Machine/Spinner, Machine/Progress and Machine/Interference are about its runs.
--
-- Compose: the composer of the same file, a `Form` beside the mailbox and the reading pane in a `Desk`:
-- clearComposeForm, startEditDraft, startReply, startForward, and what handleDeleteMessage and lockMailbox
-- do to the form. Compose/Sending is handleSend, Compose/Drafts handleSaveDraft.
--
-- Contacts: openContacts, startEditContact, handleSaveContact and handleDeleteContact of the same file, and
-- what lockMailbox does to the contacts. `contact_calls` lists the calls to the server with what they carry.
--
-- Mbox: splitMbox of apps/webmail/src/components/modals/ImportEmailsModal.tsx.
--
-- StorageSettings: apps/control-plane/src/lib/validation/storage.ts, with a table of what each provider
-- allows in StorageSettings/Verdict.
--
-- Pricing: apps/control-plane/src/lib/pricing_math.ts, in cents. Totp: apps/webmail/src/utils/totp.ts.
-- Password: apps/control-plane/src/lib/crypto/client_crypto.ts without its calls of the crypto core.
--
-- Parameters stand for what is not in these files: the exports of the crypto core (`Core`), the
-- coders and the JSON parser of the browser (`Browser`), the HMAC of Web Crypto, `Date.parse`,
-- `localeCompare`, rounding in `Math.round`, and the answers of the server. Where a theorem relies on
-- one of them, the law that it relies on is a hypothesis.
--
-- Bounds: letters are mapped between cases in the ASCII range; blanks and line ends are all those of
-- JavaScript; times are numbers of seconds from 1970 on; prices are whole cents. The pieces of
-- bytesToBase64 run on one unit of fuel a byte, which is enough since each piece takes a byte at least.
--
-- Not modelled: markup and routes; loading the mailbox, the search of the server, attachments of
-- the composer and the import of messages beyond its reader of mbox files; sign-in and its second
-- factor; the calls of api.ts beyond what the handlers ask for; the public site and the support
-- console; the services in Go and the crypto core in Rust. Other than openMessage, a handler that
-- awaits an answer is one step: what happens in between is not interleaved with it. Except for
-- signatures, a storage of the browser never refuses a write.
pub mod Accounts
pub mod Base
pub mod Encoding
pub mod Envelope
pub mod MailboxKey
pub mod Keywords
pub mod FileType
pub mod Mail
pub mod Mime
pub mod Password
pub mod Pricing
pub mod Reading
pub mod Signature
pub mod Compose
pub mod Mbox
pub mod Contacts
pub mod StorageSettings
pub mod Totp
