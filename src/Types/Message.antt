-- ===== src/Types/Message.antt =====
-- native/include/bluez_obex_types.h: the wire structs of messages and their folders.
use bluez_obex_native.Common.{List, [], ℕ, Bool, false}
use bluez_obex_native.Common.Strings.{Str}
use bluez_obex_native.Wire.{Meta, done, field, boolean, string, strings, structs, uint}

pub record BluezObexMessageProps : Type 0 where
  pub object_path : Str
  pub folder : Str
  pub subject : Str
  pub timestamp : Str
  pub sender : Str
  pub sender_address : Str
  pub reply_to : Str
  pub recipient : Str
  pub recipient_address : Str
  pub type : Str
  pub size : ℕ
  pub text : Bool
  pub status : Str
  pub attachment_size : ℕ
  pub priority : Bool
  pub read : Bool
  pub deleted : Bool
  pub sent : Bool
  pub protected : Bool
  pub delivery_status : Str
  pub conversation_id : ℕ
  pub conversation_name : Str
  pub direction : Str
  pub attachment_mime_types : Str

instance abbrev pub message_props_meta : Meta BluezObexMessageProps
message_props_meta = record {
  fields =
      field string (λ x. x.object_path) (λ v x. record x { object_path = v })
        (field string (λ x. x.folder) (λ v x. record x { folder = v })
          (field string (λ x. x.subject) (λ v x. record x { subject = v })
            (field string (λ x. x.timestamp) (λ v x. record x { timestamp = v })
              (field string (λ x. x.sender) (λ v x. record x { sender = v })
                (field string (λ x. x.sender_address) (λ v x. record x { sender_address = v })
                  (field string (λ x. x.reply_to) (λ v x. record x { reply_to = v })
                    (field string (λ x. x.recipient) (λ v x. record x { recipient = v })
                      (field string (λ x. x.recipient_address)
                        (λ v x. record x { recipient_address = v })
                        (field string (λ x. x.type) (λ v x. record x { type = v })
                          (field (uint 8) (λ x. x.size) (λ v x. record x { size = v })
                            (field boolean (λ x. x.text) (λ v x. record x { text = v })
                              (field string (λ x. x.status) (λ v x. record x { status = v })
                                (field (uint 8) (λ x. x.attachment_size)
                                  (λ v x. record x { attachment_size = v })
                                  (field boolean (λ x. x.priority)
                                    (λ v x. record x { priority = v })
                                    (field boolean (λ x. x.read) (λ v x. record x { read = v })
                                      (field boolean (λ x. x.deleted)
                                        (λ v x. record x { deleted = v })
                                        (field boolean (λ x. x.sent) (λ v x. record x { sent = v })
                                          (field boolean (λ x. x.protected)
                                            (λ v x. record x { protected = v })
                                            (field string (λ x. x.delivery_status)
                                              (λ v x. record x { delivery_status = v })
                                              (field (uint 8) (λ x. x.conversation_id)
                                                (λ v x. record x { conversation_id = v })
                                                (field string (λ x. x.conversation_name)
                                                  (λ v x. record x { conversation_name = v })
                                                  (field string (λ x. x.direction)
                                                    (λ v x. record x { direction = v })
                                                    (field string (λ x. x.attachment_mime_types)
                                                      (λ v x. record x {
                                                        attachment_mime_types = v;
                                                      })
                                                      done)))))))))))))))))))))));
  initial = record {
    object_path = [];
    folder = [];
    subject = [];
    timestamp = [];
    sender = [];
    sender_address = [];
    reply_to = [];
    recipient = [];
    recipient_address = [];
    type = [];
    size = 0;
    text = false;
    status = [];
    attachment_size = 0;
    priority = false;
    read = false;
    deleted = false;
    sent = false;
    protected = false;
    delivery_status = [];
    conversation_id = 0;
    conversation_name = [];
    direction = [];
    attachment_mime_types = [];
  };
}

pub record BluezObexMessages : Type 0 where
  pub messages : List BluezObexMessageProps

instance abbrev pub messages_meta : Meta BluezObexMessages
messages_meta = record {
  fields =
      field (structs ⦃m = message_props_meta⦄) (λ x. x.messages) (λ v x. record x { messages = v })
        done;
  initial = record { messages = [] };
}

pub record BluezObexMessageFolder : Type 0 where
  pub name : Str

instance abbrev pub message_folder_meta : Meta BluezObexMessageFolder
message_folder_meta = record {
  fields = field string (λ x. x.name) (λ v x. record x { name = v }) done;
  initial = record { name = [] };
}

pub record BluezObexMessageFolders : Type 0 where
  pub folders : List BluezObexMessageFolder

instance abbrev pub message_folders_meta : Meta BluezObexMessageFolders
message_folders_meta = record {
  fields =
      field (structs ⦃m = message_folder_meta⦄) (λ x. x.folders) (λ v x. record x { folders = v })
        done;
  initial = record { folders = [] };
}

pub record BluezObexMessageAccessProps : Type 0 where
  pub object_path : Str
  pub supported_types : List Str

instance abbrev pub message_access_props_meta : Meta BluezObexMessageAccessProps
message_access_props_meta = record {
  fields =
      field string (λ x. x.object_path) (λ v x. record x { object_path = v })
        (field strings (λ x. x.supported_types) (λ v x. record x { supported_types = v }) done);
  initial = record { object_path = []; supported_types = [] };
}

pub record BluezObexFilterFields : Type 0 where
  pub fields : List Str

instance abbrev pub filter_fields_meta : Meta BluezObexFilterFields
filter_fields_meta = record {
  fields = field strings (λ x. x.fields) (λ v x. record x { fields = v }) done;
  initial = record { fields = [] };
}
