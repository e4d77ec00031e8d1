-- ===== src/Lib.antt =====
-- wms_secret_backend: a back end of a warehouse for used books. It judges the condition of returned
-- books and the disposal of the return, keeps the stock, orders new books, allocates books in stock to
-- orders, and packs the orders into boxes; staff sign in to it. The parts share no state but the
-- database. The worker has the graph of agents (Workflow) inspect a book, with the scoring as one of
-- the agents, and puts the book in its place (Stock); a rejected book asks for a new one (Restock),
-- which an admin approves (Purchase).
--
-- Packing (app/domains/inventory/packing3d.py). Geometry has the cuboids and their tests
-- (_collides, _support_ratio, _prune_eps), Packing the loop of pack_into_box with one definition for
-- each part of its body, Packing.Catalog the boxes of app/core/constants.py, and Packing.Recommend
-- the function recommend_and_pack, which tries the boxes from the smallest and else splits the order
-- over master cartons. Lengths are whole multiples of EPS = 1e-6 mm and weights of 1e-6 g, where the
-- code has floating-point numbers, so rounding errors are not modelled. A sort is a stable insertion
-- sort, as Python's is stable. The loop that splits an order has as fuel the number of books, which
-- is enough since each round ships at least one or is the last. The code takes the books that remain
-- by their ids: the ids of an order are unique, since app/ai/bin_packing_agent.py numbers them, and
-- where a theorem needs it, that is a hypothesis.
--
-- Scoring. Ubci has the deduction rules and the grades of app/core/ubci_matrix.py. Policy,
-- Policy.Wear, Policy.Scan and Policy.StageA are Stage A of policy_agent of app/ai/agents/policy.py:
-- the reading of a defect, the worn corners (_edge_wear_profile), the loop that takes points off, and
-- the score, grade and decision. A defect is a record with the keys that the code reads and writes;
-- ratios are whole percents, a negative one counting as absent as in the code, and corners of a
-- bounding box are natural numbers of thousandths. Policy.StageB is evaluate_return_policy, and
-- Policy.StageB.Agent puts the two stages together. The search in the rule base and the language
-- model are parameters: any answer of theirs is allowed.
--
-- Picking (app/domains/orders/picking.py). A session of the database is a record of tables (lists of
-- rows with the columns that the code reads), and a change is seen by the next query, as the session
-- flushes before a query. Picking.Slots says where a book lies (_location_of, and the rule for the
-- zone, rack and shelf of app/domains/inventory/service.py), Picking.Allocate is
-- allocate_order_items, and Picking.Instruct the issue and the removal of an instruction. The key of
-- a new row is an argument, rows of the same time keep the order of the table, and the number of an
-- instruction is its day with the number that can be read from its text.
--
-- Stock (app/domains/inventory/service.py) has the tables of that service. Stock.Labels is the numbering
-- of labels (generate_next_lpn_barcode, generate_lpn), where a label is its day and zone with the
-- digits behind them, and what other requests insert during an attempt is a parameter;
-- Stock.Assign is assign_rack_location_after_inspection, and Stock.Inbound
-- fasttrack_new_stock_inbound. A location's barcode is its three parts, which have no dash. Purchase
-- (app/domains/po/service.py) has the decisions on proposals to order new books; an approval calls
-- Stock.Inbound. An operation gives the tables that are committed, and no response where it raises.
-- Keys that uuid4 draws come from a counter, and the times of rows are left out.
--
-- Restock (app/ai/agents/restock.py) collects the numbers for a proposal and checks it, Restock.Cards
-- stores its card on the board of Purchase, and Restock.Scan is scan_safety_stock of
-- app/domains/po/service.py. The answer of the language model is any function of the numbers that are
-- collected. What went out is a list of rows with their size, as the code stores them as negative
-- changes; the price and the flag of a book and the setting are functions and a number that are read.
-- Days of stock are compared by products in place of quotients of floats, which decide the same.
--
-- Worker (app/worker/tasks.py, app/domains/returns/job_service.py) is the task that inspects a book.
-- Worker.Process has a run of the task, its repetition by the queue with the delays left out (three
-- times more at most, which is the fuel), the sweep, and the request of an admin for a new inspection
-- (app/domains/admin/service.py). What a run meets is a record: the lock, the answer of the graph,
-- whether the database takes the place of the book (Stock.Assign) and the queue its entry, and for
-- each commit of the row of the job whether it is made and whether an exception follows it, be it of
-- the commit, of the reading of the row or of the event for the page. Reading the job at the start of
-- a run does not fail, and jobs are not removed in a run. Of agent_logs there are the keys that the
-- worker reads or writes. The events themselves and notifications are left out.
--
-- Override (app/domains/admin/service.py, app/domains/admin/schemas.py, app/models/wms.py) is what an
-- admin does to inspected books. Returns has the rows of the jobs with the keys of agent_logs, and
-- the boxes by picture (build_defect_coordinates of app/ai/langgraph_wrapper.py); entries of defects
-- are dictionaries, as the agents write them, and corners are natural numbers. Override has the bands
-- of the grades, Override.Edits apply_bbox_edits, Override.Score the score after an edit and its
-- preview, Override.Session and Submit submit_hitl_override in one session of the database, of which
-- an error keeps what was committed before, and Override.Recall recall_inventory_to_hitl. What the
-- assignment of a place meets is a parameter. The admin and the time of a row are left out. A new
-- inspection goes on in Worker, which another process runs after the request.
--
-- Wrapper (app/ai/langgraph_wrapper.py) turns the state in which the graph of agents ends into the
-- result that the worker is given.
--
-- Fraud (app/domains/fds/service.py) has the four rules, over rows of the tables that they read, and
-- Fraud.Scan run_scan, with the reports that it adds and those that it finds known. A rule that raises
-- an exception is one that gives nothing. The share in the score of R1 is a float expression and a
-- parameter, as is the text that names an admin.
--
-- Workflow is the graph of agents that inspects a returned book: the critic with its cross-check
-- (app/ai/agents/critic.py), the supervisor and the edges behind it (app/ai/supervisor.py). Scores
-- are natural numbers. The result of the vision and policy agents in each round and the answer of
-- the language model are arbitrary functions of the round. The run has fuel for its rounds, and two
-- are enough.
--
-- Sign-in. Auth.Password is app/core/password_policy.py over lists of code points, with a reason as a
-- constructor, and Auth.Throttle is app/domains/auth/throttle.py, where the server that counts is a
-- record of its commands with the laws that its documentation gives, also of the keys that expire as
-- whole seconds pass; any command of a call can be the one that raises.
--
-- Uploads (app/core/file_security.py) has the checks of a file as they follow one another in
-- scan_attachment (Uploads.Scan): Uploads.Magic the signatures and texts, Uploads.Archive office
-- documents with the archives in them to depth 2, Uploads.Images PDF files and pictures, and
-- Uploads.Names the name. Bytes and code points are natural numbers. What zipfile, Pillow, the
-- decoders and the normal form of Unicode give is a parameter, and any answer is allowed. The
-- ratio of an archive is compared by products.
--
-- The modules below each part hold its proofs: Packing.Separation, Bounds, Support, Conserve, Split,
-- Smallest, Safe and Complete (with Placing and Leftover, which they share), Policy.Total, Verdict,
-- Ignored, Order, Mono and Policy.StageB.Grounds, Picking.Keys, Locks, Taken, Times,
-- Distinct, Rest, Release, Same, Restores, Quantities and Numbers, Stock.Rows, Fresh, Issue, Spent and Placed, Purchase.Loop,
-- Board, Conserve, Decide, Errors and Again, Restock.Bounds, Fallback, Few, Served, Order, Rejects
-- and Single, Override.Rows, Kept, Bands, Previewed, Reconsidered, Served, Noted, Batch, Shelved and Approved, Wrapper.Held,
-- Uploads.Occurs, Trimmed, Entries, Shown and Clean, Worker.Runs, Jobs, Ended, Locked, Again and Limits, Fraud.Once and Found,
-- Workflow.Integrity, Ends and Reported, Auth.Runs, Rules and Budget. Prelude has lists, sorting, rounding,
-- texts, pieces of lists and tests.
--
-- Not modelled: texts for display (deduction notes, policy_text, rationale, the mark ratio_source),
-- the citation of clauses for the deductions, which the code keeps apart from the score, and the
-- parts of the program that are database queries, web handlers or calls of other services.
pub mod Auth
pub mod Fraud
pub mod Geometry
pub mod Override
pub mod Packing
pub mod Picking
pub mod Policy
pub mod Prelude
pub mod Purchase
pub mod Restock
pub mod Returns
pub mod Stock
pub mod Ubci
pub mod Uploads
pub mod Worker
pub mod Workflow
pub mod Wrapper
