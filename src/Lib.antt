-- ===== src/Lib.antt =====
-- The Rideway API, a NestJS service over TypeORM, PostgreSQL and Redis: its services, as functions
-- on the state of the tables that they read and write.
--
-- A service is a class whose methods read and write repositories and throw HTTP exceptions. Here a
-- method is an `Action`: a function from the tables to an outcome, which is a value or an exception,
-- each beside the tables that it leaves (Action.antt). What was written before an exception stays
-- written; a transaction (that of blockUser, and those of the chat) is a single change of the tables.
-- Calls do not interleave: one method runs to its end before the next; a history is a sequence of such
-- calls.
--
-- The parts, with the code that each file models:
--   Database.antt       TypeORM's repositories, as an interface `Orm` with laws; a table is a list
--                       of rows, and no law speaks of their order. Rows, Presence, Tallies,
--                       Toggles and Pairs hold what the laws give the services: counts, what a query
--                       finds, counter columns, and tables of likes and follows. InMemory meets the
--                       laws.
--   Redis.antt          the Redis client, as an interface with laws; Redis/InMemory.antt meets them
--   Blocking.antt       follows and blocks, and the two questions about blocks that
--                       src/modules/users/users.service.ts and other services ask
--   Pagination.antt     the page data that every list answers, as in
--                       src/modules/social/comments/comments.service.ts, findReplies
--   Comments.antt       src/modules/social/comments/comments.service.ts: the calls that write;
--                       Comments/Lists.antt: findByPost and findReplies
--   Posts.antt          src/modules/social/posts/posts.service.ts: reads, likes and shares;
--                       Posts/Writing.antt the calls that create, edit and delete,
--                       Posts/Feeds.antt the feed and the lists
--   Stories.antt        src/modules/social/stories/stories.service.ts; Stories/Cleaning.antt is about
--                       the hourly job
--   Chat.antt           src/modules/chat/chat.service.ts: conversations of two users, messages and
--                       what is unread; Chat/Pairs.antt states what the tables keep
--   Users.antt          src/modules/users/users.service.ts: follows and blocks; Users/Profiles.antt the
--                       profiles, Users/Lists.antt the lists, Users/Graph.antt what follows and
--                       blocks promise, as a graph
--   Gateway.antt        src/modules/gateway/gateway.service.ts, sockets, presence and activity, and the
--                       connection handlers of gateway.gateway.ts; Gateway/Batches.antt the pipelines
--   Auth.antt           src/modules/auth/auth.service.ts: the tables and the two helpers that make
--                       tokens and codes; Auth/Methods.antt: the public methods
--   Forum.antt          src/modules/forum/forum-threads.service.ts and the part of
--                       forum-categories.service.ts that it calls; Forum/Threads.antt has the
--                       calls on threads and Forum/Replies.antt those on replies
--   Services.antt       src/modules/services/services.service.ts: reviews, verification, deletion
-- Under each part stand its invariant, the theorems by what they are about, and Tests.
--
-- Names follow the code: `create_reply` is createReply, `replies_count` is repliesCount. Ids are
-- uuids and stand as numbers; dates are milliseconds. An id that the database generates, a salt and
-- a random code are arguments, and a theorem that needs an id to be new says so. A counter column is
-- an integer, since it is decremented without a test; the number of reviews is counted anew each time
-- and is a natural number. The columns' width of 32 bits is not modelled.
-- Nothing runs on fuel: every method is a finite sequence of queries.
--
-- Not modelled: bcrypt, JWT, TypeORM and PostgreSQL themselves, which are parameters; the joined rows
-- that an answer carries; log lines; request validation; the views of threads, which Redis counts;
-- the lists of the forum and of the catalogue, the administration of categories, and the creation and
-- edit of a service; the blacklist of access tokens in Redis;
-- typing indicators and rooms of the gateway; the trending hashtags; how the feed of stories is grouped
-- and sorted; the profiles of a story's viewers; the lists of conversations and messages; the other
-- services (marketplace, notifications, media, queues, email) and the HTTP glue.
pub mod Prelude
pub mod Database
pub mod Action
pub mod Pagination
pub mod Redis
pub mod Blocking
pub mod Chat
pub mod Gateway
pub mod Comments
pub mod Posts
pub mod Users
pub mod Auth
pub mod Forum
pub mod Services
pub mod Stories
