-- ===== src/Lib.antt =====
-- pubky-swap: atomic swaps between Lightning and on-chain bitcoin, negotiated over Pubky.
--
-- A provider advertises an offer; a client asks for a quote, redeems it for an acceptance, and the
-- two then run a reverse swap (Lightning in, on-chain out) or a submarine one (on-chain in,
-- Lightning out). Either side validates what the other sent, holds the two clocks apart, and drives
-- its own spend of the contract to confirmation under a fee ceiling. The provider admits a swap only
-- within its limits. The modules below model that core:
--
-- Prelude    Helpers: Boolean tests, lists, Result with its do notation, machine integers.
-- Map        The association lists that stand for hash maps and ordered maps.
-- Swap       swap-common/src/swap.rs: SwapDirection, NetworkSpec, SwapState (is_terminal,
--            leg_status), LegStatus.
-- Timelock   swap-common/src/timelock.rs: TimelockParams and every gate on heights
--            (check_reverse_before_fund, check_submarine_before_pay, submarine_cltv_budget,
--            check_client_reverse_accept, check_client_submarine_accept, validate_params, ...).
-- Messages   swap-common/src/messages.rs: SwapOffer (quote_fee, accepts_amount), QuoteRequest, Quote,
--            SwapAccept, RejectCode; the two tree structs of swap-common/src/taproot.rs.
-- Onchain    swap-common/src/onchain.rs (spend_vsize, resolve_fee_rate, fee_rate_cap,
--            deadline_fee_rate) and swap-provider/src/pricing.rs (expected_onchain_cost_sat).
--            extract_preimage in Onchain/Preimages.
-- Chain      swap-common/src/chain.rs: FundingUtxo, FundingSelection, select_funding;
--            select_recorded_funding in Chain/Recorded.
-- FeeBump    swap-common/src/fee_bump.rs: SpendWatchConfig, confirm_or_bump and its parts.
-- Reorg      swap-common/src/reorg.rs: ReorgMonitor and its observe.
-- Validate   swap-common/src/validate.rs: ClientPolicy, validate_quote, validate_accept,
--            validate_hold_invoice.
-- Risk       swap-provider/src/risk.rs: the accounting of RiskManager and each method that changes it;
--            the promised wallet funds in Risk/Funding.
-- Quoting    swap-provider/src/lib.rs: QuoteBook (insert, restore, prune), take_valid_quote, and the
--            QuoteRequest branch of handle_message; same_pubky of pubky-transport/src/lib.rs.
--
-- Driver     What the drivers share: a run with its log of calls, logs that follow a protocol, and
--            calls that a protocol allows so often (Driver/Counts), what the parts of a run
--            returned (Driver/Results), and what holds of each of its calls (Driver/Logs).
-- Reverse    swap-provider/src/reverse.rs: establish_funding, await_recorded_funding and the wait
--            before them in Reverse/Establish, drive_reverse_swap in Reverse/Watch. Reverse/Protocol
--            says which call may be made in which phase of the swap's money.
-- Submarine  swap-provider/src/submarine.rs: the funding and its guard in Submarine/Funding, the
--            payment in Submarine/Payment, the claim and drive_submarine_swap in Submarine/Claim.
--            Submarine/Protocol is its protocol. Submarine/Create and Reverse/Create
--            are init_submarine_swap and init_reverse_swap, without the contract's script.
-- Store      swap-common/src/store.rs: SwapRecord (note_our_spend, resume, funds_at_risk,
--            safe_to_prune). Store/Progress is StoreProgress of swap-provider/src/lib.rs,
--            Store/Recovery swap-provider/src/recovery.rs, and Store/Crashes puts runs of the reverse
--            driver, the record and crashes together.
-- Client     The drivers of the client: swap-client/src/reverse.rs (execute_reverse_swap) in
--            Client/Reverse, swap-client/src/submarine.rs (execute_submarine_swap, establish_funding,
--            await_recorded_funding) in Client/Submarine, each with its Protocol, and Promises.
-- Outbox     pubky-transport/src/outbox.rs: the journal, update and validate; what each operation
--            makes of a journal in Outbox/Changes, the operations in Outbox/Operations.
-- Inbox      pubky-transport/src/journal.rs: the journal of received messages and its changes, its
--            operations in Inbox/Operations.
--
-- Validate calls Timelock and Messages as the source does; FeeBump prices with Onchain; Risk
-- refuses with the codes of Messages. Quoting prices with Messages and asks Risk, and its quotes are
-- what Validate checks. The children of a module hold its theorems, and its Examples apply them to
-- concrete data.
--
-- Integers are natural numbers with the width written out: checked_add and checked_mul answer none
-- above the largest value, saturating_add stops at it, as_u32 and as_u64 wrap. A subtraction is that
-- of a type that stops at zero (saturating_sub), or stands under a test that it fits. A Uuid, a
-- transaction id, a hash and the id of a received message are the numbers they encode, and nil is 0.
-- A map is an association list, where insert replaces and remove drops a key; nothing depends on its
-- order.
--
-- A method under the risk manager's lock is one step on its state, and a run is a list of such
-- calls. An instant is a number of nanoseconds. confirm_or_bump takes what the chain backend, the
-- clock and the spend builder answered as arguments: an Opening for the calls before the loop, one
-- Turn for each round of it. A run on too few turns answers none; the iteration ceiling of the
-- configuration bounds the rounds, so a list of that length, one at least, is enough. The removal
-- loop of the reorganisation monitor runs on fuel, and as many rounds as there are checkpoints are
-- enough, since each removes one. The eviction loop of the quote book is a recursion on the order
-- that it pops.
--
-- The drivers, too, take the answers of the Lightning node, the chain and the wallet as arguments,
-- one record for each round of a loop; a run whose answers are used up is still going. A run's log
-- holds its calls that matter to the other side or to the record, each with the answer that decides
-- what may follow; relied_on is the one entry that is no call, the decision to use a recorded
-- outpoint as it stands. Where a protocol speaks of a phase it is the abstract state of the swap,
-- not a variable of the code. A refund or claim is a whole call of confirm_or_bump, and what it told
-- on_spend is logged when it ends. SHA-256 and the builders of spends are arguments. The client's
-- own payment runs beside its driver, and what it has come to is an answer, too; that it is aborted
-- with the driver is left out. Reasons of failures are the source's without the details printed in
-- them. The payment loop of a submarine swap runs on its thirty polls.
--
-- A crash may come after any number of a run's calls. A record is in memory and on disk, and only the
-- write of a funding intent is known to have landed where its call is on the log. The release of the
-- wallet's funding claim, which the same callback makes, is in Risk/Claims.
--
-- A journal of the outbox or the inbox is a value, and writing it one answer of the disk; a failed
-- write stops the owner, as in the source. Its lock, a poisoned lock and the file are left out, and
-- so is the list that status makes of the entries. The digest of a message's content and the message
-- that the messenger prepared are arguments. The delay after the nth failure is 2 ^ (n - 1) seconds,
-- 300 at most, and a shift of 64 or more gives the largest value before the cut.
--
-- The messenger library's record of what has been received stands as an argument of the inbox, with
-- the one fact that a receipt once noted stays known.
--
-- The reading of a public key from its text is the pubky library's, and stands as an argument key_of.
-- Whether the access policy admits a sender, and the id that is drawn for a quote, are arguments too.
--
-- Not modelled: the client's negotiation, the provider's handlers of swap, status and list requests,
-- the rest of the transport, files and directories of records, the contract scripts and their
-- signatures (which the bitcoin library builds), the Lightning nodes, logging, texts of errors,
-- serialisation and command lines.
pub mod Prelude
pub mod Map
pub mod Swap
pub mod Timelock
pub mod Messages
pub mod Onchain
pub mod Outbox
pub mod Inbox
pub mod Chain
pub mod Client
pub mod FeeBump
pub mod Reorg
pub mod Driver
pub mod Reverse
pub mod Submarine
pub mod Store
pub mod Validate
pub mod Risk
pub mod Quoting
